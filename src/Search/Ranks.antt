-- ===== src/Search/Ranks.antt =====
-- The ranking of the documents: nothing is lost, and the best stand first.
use mathlib.Core.List.{Permᴰ, append-nil}
use mathlib.Core.Path.{subst}
use lbpr.Prelude.{
  ◌≡◌, refl, ap, ◌∙◌, true, false, Option, none, some, List, [], ◌∷◌, ◌++◌, map, All, All-map,
  Bool-cases, inl, inr,
}
use lbpr.Prelude.Perms.{perm_refl, perm_append, perm_middle}
use lbpr.Search.Store.{Doc, Scores, Ranking, insert_ranked, sort_ranked, ranked}

abbrev pub docs_of : {F S : Type 0} → Ranking F S → List (Doc F)
docs_of entries = map (λ e. e.1) entries

-- the score that a document has to have
abbrev pub score_of : {F S : Type 0} → Scores F S → Option (List F) → Doc F → S
score_of scores none d = scores.zero_score
score_of scores (some vector) d = scores.cosine vector d.vector

module _ {F S : Type 0} (scores : Scores F S) where
  -- no later score is above an earlier one
  abbrev pub IsRanked : Ranking F S → Type 0
  IsRanked [] = Unit
  IsRanked (e ∷ es) = All (λ x. scores.below e.0 x.0 ≡ false) es × IsRanked es

  insert_ranked-All :
      (P : S × Doc F → Type 0) (e : S × Doc F) (es : Ranking F S)
      → P e
      → All P es
      → All P (insert_ranked scores e es)
  unfolding insert_ranked
  insert_ranked-All P e [] here h = (here, tt)
  insert_ranked-All P e (x ∷ xs) here (first, rest) = elim (Bool-cases (scores.below x.0 e.0)) [
    | inl low ↦ rw low (here, (first, rest))
    | inr high ↦ rw high (first, insert_ranked-All P e xs here rest)
  ]

  sort_ranked-All :
      (P : S × Doc F → Type 0) (es sorted : Ranking F S)
      → All P es
      → All P sorted
      → All P (sort_ranked scores es sorted)
  unfolding sort_ranked
  sort_ranked-All P [] sorted h k = k
  sort_ranked-All P (e ∷ es) sorted h k =
      sort_ranked-All P es (insert_ranked scores e sorted) h.1 (insert_ranked-All P e sorted h.0 k)

  insert_ranked-perm :
      (e : S × Doc F) (es : Ranking F S)
      → Permᴰ (docs_of (insert_ranked scores e es)) (e.1 ∷ docs_of es)
  unfolding insert_ranked
  insert_ranked-perm e [] = perm_refl (e.1 ∷ [])
  insert_ranked-perm e (x ∷ xs) = elim (Bool-cases (scores.below x.0 e.0)) [
    | inl low ↦ rw low (perm_refl (e.1 ∷ x.1 ∷ docs_of xs))
    | inr high ↦
        rw high (Permᴰ.trans (Permᴰ.cons refl (insert_ranked-perm e xs)) (Permᴰ.swap refl refl))
  ]

  sort_ranked-perm :
      (es sorted : Ranking F S)
      → Permᴰ (docs_of (sort_ranked scores es sorted)) (docs_of es ++ docs_of sorted)
  unfolding sort_ranked
  sort_ranked-perm [] sorted = perm_refl (docs_of sorted)
  sort_ranked-perm (e ∷ es) sorted =
      Permᴰ.trans (sort_ranked-perm es (insert_ranked scores e sorted)) (
        Permᴰ.trans (perm_append (docs_of es) (insert_ranked-perm e sorted))
          (perm_middle (docs_of es) e.1 (docs_of sorted)))

  scored : Option (List F) → List (Doc F) → Ranking F S
  scored vector docs = map (λ d. (score_of scores vector d, d)) docs

  -- what a ranking of some documents is
  pub record Ranks (vector : Option (List F)) (docs : List (Doc F)) (entries : Ranking F S)
      : Type 0 where
    pub complete : Permᴰ (docs_of entries) docs
    pub scores_right : All (λ e. e.0 ≡ score_of scores vector e.1) entries
    pub best_first : IsRanked entries

  module _ (asymmetric : (a b : S) → scores.below a b ≡ true → scores.below b a ≡ false)
      (cotransitive : (a b c : S)
        → scores.below a b ≡ false
        → scores.below b c ≡ false
        → scores.below a c ≡ false) where
    insert_ranked-IsRanked :
        (e : S × Doc F) (es : Ranking F S) → IsRanked es → IsRanked (insert_ranked scores e es)
    unfolding insert_ranked
    insert_ranked-IsRanked e [] h = (tt, tt)
    insert_ranked-IsRanked e (x ∷ xs) (above, rest) = elim (Bool-cases (scores.below x.0 e.0)) [
      | inl low ↦
          let over : scores.below e.0 x.0 ≡ false = asymmetric x.0 e.0 low in
          rw low (
            (over, All-map (λ (y : S × Doc F) h. cotransitive e.0 x.0 y.0 over h) xs above),
            (above, rest),
          )
      | inr high ↦ rw high (
        insert_ranked-All (λ y. scores.below x.0 y.0 ≡ false) e xs high above,
        insert_ranked-IsRanked e xs rest,
      )
    ]

    sort_ranked-IsRanked :
        (es sorted : Ranking F S) → IsRanked sorted → IsRanked (sort_ranked scores es sorted)
    unfolding sort_ranked
    sort_ranked-IsRanked [] sorted h = h
    sort_ranked-IsRanked (e ∷ es) sorted h =
        sort_ranked-IsRanked es (insert_ranked scores e sorted) (insert_ranked-IsRanked e sorted h)

    not_below_itself : (a : S) → scores.below a a ≡ false
    not_below_itself a = elim (Bool-cases (scores.below a a)) [
      | inl low ↦ asymmetric a a low
      | inr high ↦ high
    ]

    zeros-IsRanked : (docs : List (Doc F)) → IsRanked (map (λ d. (scores.zero_score, d)) docs)
    zeros-IsRanked [] = tt
    zeros-IsRanked (d ∷ docs) = (zeros docs, zeros-IsRanked docs)
      where
        zeros :
            (ds : List (Doc F))
            → All
                (λ (x : S × Doc F). scores.below scores.zero_score x.0 ≡ false)
                (map (λ d. (scores.zero_score, d)) ds)
        zeros [] = tt
        zeros (d ∷ ds) = (not_below_itself scores.zero_score, zeros ds)

    scored-All :
        (vector : Option (List F)) (docs : List (Doc F))
        → All (λ e. e.0 ≡ score_of scores vector e.1) (scored vector docs)
    unfolding scored
    scored-All vector [] = tt
    scored-All vector (d ∷ docs) = (refl, scored-All vector docs)

    docs_of-scored :
        (vector : Option (List F)) (docs : List (Doc F)) → docs_of (scored vector docs) ≡ docs
    unfolding scored
    docs_of-scored vector [] = refl
    docs_of-scored vector (d ∷ docs) = ap (λ l. d ∷ l) (docs_of-scored vector docs)

    pub ranked-Ranks :
        (vector : Option (List F)) (docs : List (Doc F))
        → Ranks vector docs (ranked scores vector docs)
    unfolding ranked scored
    ranked-Ranks none docs = record {
      complete = rw (docs_of-scored none docs) (perm_refl docs);
      scores_right = scored-All none docs;
      best_first = zeros-IsRanked docs;
    }
    ranked-Ranks (some vector) docs =
        let unsorted : Ranking F S = scored (some vector) docs in
        record {
          complete =
              subst (Permᴰ (docs_of (sort_ranked scores unsorted [])))
                (append-nil (docs_of unsorted) ∙ docs_of-scored (some vector) docs)
                (sort_ranked-perm unsorted []);
          scores_right =
              sort_ranked-All (λ e. e.0 ≡ score_of scores (some vector) e.1) unsorted []
                (scored-All (some vector) docs) tt;
          best_first = sort_ranked-IsRanked unsorted [] tt;
        }
