-- ===== src/VectorStore/Ranked.antt =====
-- The matches of `query`: which they are, their number and their order.
use mathlib.Core.List.{Permᴰ, append-nil}
use lbpr.Prelude.{
  ℕ, String, ◌≡◌, sym, Bool, true, false, Option, none, some, List, [], ◌∷◌, length, take, drop,
  take-drop, min, ◌==◌, ◌++◌, ap, refl, ◌∙◌, length-take, arith, All, All-map, Bool-cases, inl, inr,
}
use lbpr.Prelude.Perms.{perm_refl, perm_append, perm_middle, perm_length}
use lbpr.Dict
use lbpr.Dict.{Dict}
use lbpr.VectorStore.Models.{DnfFilter, VectorRecord, Result, ok, err}
use lbpr.VectorStore.Filter.{ValueOps, match_filter}
use lbpr.VectorStore.Adapter.{Store}
use lbpr.VectorStore.Ranking.{
  QueryMatch, Scores, insert_match, cosine, score_one, score_all, sort_from, best, query_in, query,
}

module _ {F S : Type 0} (scores : Scores F S) where
  -- no later score is above an earlier one
  abbrev pub Ranked : List (QueryMatch S) → Type 0
  Ranked [] = Unit
  Ranked (m ∷ ms) = All (λ x. scores.below m.score x.score ≡ false) ms × Ranked ms

  All-insert_match :
      (P : QueryMatch S → Type 0) (m : QueryMatch S) (ms : List (QueryMatch S))
      → P m
      → All P ms
      → All P (insert_match scores m ms)
  unfolding insert_match
  All-insert_match P m [] here h = (here, tt)
  All-insert_match P m (x ∷ xs) here (first, rest) =
      elim (Bool-cases (scores.below x.score m.score)) [
        | inl e ↦ rw e (here, (first, rest))
        | inr e ↦ rw e (first, All-insert_match P m xs here rest)
      ]

  -- the match that a record with the vector `vector` is
  abbrev pub match_of : List F → VectorRecord F → QueryMatch S
  match_of vector rec = record {
    id = rec.id;
    score = scores.similarity vector rec.vector;
    metadata = rec.metadata;
    text = rec.text;
  }

  -- The matches are those of the records that pass the filter, with their scores.
  pub data Matched (ops : ValueOps) (vector : List F) (flt : Option DnfFilter)
      : Dict (VectorRecord F) → List (QueryMatch S) → Type 0 where
    nothing : Matched ops vector flt [] []
    passes :
        {rid : String} {rec : VectorRecord F} {ns : Dict (VectorRecord F)}
        {ms : List (QueryMatch S)}
        → match_filter ops rec.metadata flt ≡ some true
        → length vector ≡ length rec.vector
        → Matched ops vector flt ns ms
        → Matched ops vector flt ((rid, rec) ∷ ns) (match_of vector rec ∷ ms)
    misses :
        {rid : String} {rec : VectorRecord F} {ns : Dict (VectorRecord F)}
        {ms : List (QueryMatch S)}
        → match_filter ops rec.metadata flt ≡ some false
        → Matched ops vector flt ns ms
        → Matched ops vector flt ((rid, rec) ∷ ns) ms

  score_one-Matched :
      (ops : ValueOps) (vector : List F) (flt : Option DnfFilter) (rid : String)
      (rec : VectorRecord F) (ns : Dict (VectorRecord F)) (o : Option Bool)
      (rest : Result (List (QueryMatch S))) (scored : List (QueryMatch S))
      → match_filter ops rec.metadata flt ≡ o
      → score_one scores vector rec o rest ≡ ok scored
      → ((ms : List (QueryMatch S)) → rest ≡ ok ms → Matched ops vector flt ns ms)
      → Matched ops vector flt ((rid, rec) ∷ ns) scored
  unfolding cosine
  score_one-Matched ops vector flt rid rec ns none rest scored filtered e ih = cc
  score_one-Matched ops vector flt rid rec ns (some false) rest scored filtered e ih =
      misses filtered (ih scored e)
  score_one-Matched ops vector flt rid rec ns (some true) (err x) scored filtered e ih =
      elim (Bool-cases (length vector == length rec.vector)) [
        | inl same ↦ let k = rw same at e in cc
        | inr other ↦ let k = rw other at e in cc
      ]
  score_one-Matched ops vector flt rid rec ns (some true) (ok ms) scored filtered e ih =
      elim (Bool-cases (length vector == length rec.vector)) [
        | inl same ↦
            let k = rw same at e in
            let here : match_of vector rec ∷ ms ≡ scored = cc k in
            rw (← here) (passes filtered (ground arith) (ih ms refl))
        | inr other ↦ let k = rw other at e in cc
      ]

  score_all-Matched :
      (ops : ValueOps) (vector : List F) (flt : Option DnfFilter) (ns : Dict (VectorRecord F))
      (scored : List (QueryMatch S))
      → score_all scores ops vector flt ns ≡ ok scored
      → Matched ops vector flt ns scored
  unfolding score_all
  score_all-Matched ops vector flt [] scored e =
      let none_left : [] ≡ scored = cc e in rw (← none_left) nothing
  score_all-Matched ops vector flt ((rid, rec) ∷ ns) scored e =
      score_one-Matched ops vector flt rid rec ns (match_filter ops rec.metadata flt)
        (score_all scores ops vector flt ns) scored refl e
        (λ ms made. score_all-Matched ops vector flt ns ms made)

  insert_match-perm :
      (m : QueryMatch S) (ms : List (QueryMatch S)) → Permᴰ (insert_match scores m ms) (m ∷ ms)
  unfolding insert_match
  insert_match-perm m [] = perm_refl (m ∷ [])
  insert_match-perm m (x ∷ xs) = elim (Bool-cases (scores.below x.score m.score)) [
    | inl low ↦ rw low (perm_refl (m ∷ x ∷ xs))
    | inr high ↦
        rw high (Permᴰ.trans (Permᴰ.cons refl (insert_match-perm m xs)) (Permᴰ.swap refl refl))
  ]

  sort_from-perm :
      (ms sorted : List (QueryMatch S)) → Permᴰ (sort_from scores ms sorted) (ms ++ sorted)
  unfolding sort_from
  sort_from-perm [] sorted = perm_refl sorted
  sort_from-perm (m ∷ ms) sorted =
      Permᴰ.trans (sort_from-perm ms (insert_match scores m sorted))
        (Permᴰ.trans (perm_append ms (insert_match-perm m sorted)) (perm_middle ms m sorted))

  -- The matches of the records that pass the filter, in some order, start with `ms`, as many of
  -- them as `top_k` allows, and no later one of all has a score above an earlier one.
  pub record BestOf (ops : ValueOps) (vector : List F) (top_k : ℕ) (flt : Option DnfFilter)
      (ns : Dict (VectorRecord F)) (ms : List (QueryMatch S)) : Type 0 where
    pub matches : List (QueryMatch S)
    pub matched : Matched ops vector flt ns matches
    pub rest : List (QueryMatch S)
    pub ordered : Permᴰ (ms ++ rest) matches
    pub ranked : Ranked (ms ++ rest)
    pub number : length ms ≡ min top_k (length matches)

  module _ (asymmetric : (a b : S) → scores.below a b ≡ true → scores.below b a ≡ false)
      (cotransitive : (a b c : S)
        → scores.below a b ≡ false
        → scores.below b c ≡ false
        → scores.below a c ≡ false) where
    insert_match-Ranked :
        (m : QueryMatch S) (ms : List (QueryMatch S))
        → Ranked ms
        → Ranked (insert_match scores m ms)
    unfolding insert_match
    insert_match-Ranked m [] h = (tt, tt)
    insert_match-Ranked m (x ∷ xs) (above, rest) =
        elim (Bool-cases (scores.below x.score m.score)) [
          | inl e ↦
              let over : scores.below m.score x.score ≡ false = asymmetric x.score m.score e in
              rw e (
                (
                  over,
                  All-map (λ (y : QueryMatch S) h. cotransitive m.score x.score y.score over h) xs
                      above,
                ),
                (above, rest),
              )
          | inr e ↦ rw e (
            All-insert_match (λ y. scores.below x.score y.score ≡ false) m xs e above,
            insert_match-Ranked m xs rest,
          )
        ]

    sort_from-Ranked :
        (ms sorted : List (QueryMatch S)) → Ranked sorted → Ranked (sort_from scores ms sorted)
    unfolding sort_from
    sort_from-Ranked [] sorted h = h
    sort_from-Ranked (m ∷ ms) sorted h =
        sort_from-Ranked ms (insert_match scores m sorted) (insert_match-Ranked m sorted h)

    best-BestOf :
        (ops : ValueOps) (vector : List F) (top_k : ℕ) (flt : Option DnfFilter)
        (ns : Dict (VectorRecord F)) (scored : List (QueryMatch S))
        → Matched ops vector flt ns scored
        → BestOf ops vector top_k flt ns (take top_k (sort_from scores scored []))
    best-BestOf ops vector top_k flt ns scored h =
        let sorted : List (QueryMatch S) = sort_from scores scored [] in
        let perm : Permᴰ sorted scored = rw append-nil at (sort_from-perm scored []) in
        record {
          matches = scored;
          matched = h;
          rest = drop top_k sorted;
          ordered = rw (take-drop top_k sorted) perm;
          ranked = rw (take-drop top_k sorted) (sort_from-Ranked scored [] tt);
          number = length-take top_k sorted ∙ ap (min top_k) (perm_length perm);
        }

    -- If scores are ordered (an order and its converse never hold at once, and "not below" composes),
    -- a query that returns matches found the namespace, and returns the best `top_k` of the matches
    -- of all its records that pass the filter, the best first, or all of them if there are fewer.
    pub query-Ranked :
        (ops : ValueOps) (namespace : String) (vector : List F) (top_k : ℕ) (flt : Option DnfFilter)
        (s : Store F) (ms : List (QueryMatch S))
        → query scores ops namespace vector top_k flt s ≡ ok ms
        → (ns : Dict (VectorRecord F)) × (Dict.lookup namespace s ≡ some ns)
          × BestOf ops vector top_k flt ns ms
    unfolding query
    query-Ranked ops namespace vector top_k flt s ms found =
        by_entry (Dict.lookup namespace s) refl found
      where
        by_scored :
            (ns : Dict (VectorRecord F)) (r : Result (List (QueryMatch S)))
            → score_all scores ops vector flt ns ≡ r
            → best scores top_k r ≡ ok ms
            → BestOf ops vector top_k flt ns ms
        by_scored ns (err e) made h = cc
        by_scored ns (ok scored) made h =
            let same : take top_k (sort_from scores scored []) ≡ ms = cc h in
            rw (sym same) (
              best-BestOf ops vector top_k flt ns scored
                (score_all-Matched ops vector flt ns scored made))

        by_entry :
            (o : Option (Dict (VectorRecord F)))
            → Dict.lookup namespace s ≡ o
            → query_in scores ops vector top_k flt o ≡ ok ms
            → (ns : Dict (VectorRecord F)) × (Dict.lookup namespace s ≡ some ns)
              × BestOf ops vector top_k flt ns ms
        by_entry none there h = cc
        by_entry (some ns) there h = (ns, there, by_scored ns _ refl h)
