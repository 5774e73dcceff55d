-- ===== src/VectorStore/Ranking.antt =====
-- components/vectorstoreadapter/adapters/inmemory.py: `_cosine` and `query`. The arithmetic of a score
-- is on floats, and is a parameter: the cosine of two vectors of one length, 0.0 where one has none,
-- and the order of scores. `list.sort` is stable, also with `reverse=True`.
use lbpr.Prelude.{
  ℕ, String, Bool, true, false, Option, none, some, List, [], ◌∷◌, length, take, ◌==◌,
  if◌then◌else◌,
}
use lbpr.Dict
use lbpr.Dict.{Dict}
use lbpr.Value.{Value}
use lbpr.VectorStore.Models.{
  DnfFilter, VectorRecord, Result, ok, err, bad_request, namespace_not_found, type_error,
}
use lbpr.VectorStore.Filter.{ValueOps, match_filter}
use lbpr.VectorStore.Adapter.{Store}

pub record QueryMatch (S : Type 0) : Type 0 where
  pub id : String
  pub score : S
  pub metadata : Dict Value
  pub text : Option String

pub record Scores (F S : Type 0) : Type 0 where
  pub similarity : List F → List F → S
  -- whether a score is below another
  pub below : S → S → Bool

module _ {F S : Type 0} (scores : Scores F S) where
  unfoldable pub cosine : List F → List F → Result S
  cosine a b = if length a == length b then ok (scores.similarity a b) else err bad_request

  -- a match goes before the first one that is below it
  unfoldable pub insert_match : QueryMatch S → List (QueryMatch S) → List (QueryMatch S)
  insert_match m [] = m ∷ []
  insert_match m (x ∷ xs) =
      let rest : List (QueryMatch S) = insert_match m xs in
      if scores.below x.score m.score then m ∷ x ∷ xs else x ∷ rest

  -- `scored.append(...)`, before the later rounds
  abbrev pub add_match :
      VectorRecord F → Result S → Result (List (QueryMatch S)) → Result (List (QueryMatch S))
  add_match rec (err e) rest = err e
  add_match rec (ok score) (err e) = err e
  add_match rec (ok score) (ok scored) =
      ok (record { id = rec.id; score = score; metadata = rec.metadata; text = rec.text } ∷ scored)

  -- one record, by what the filter says of it
  abbrev pub score_one :
      List F
      → VectorRecord F
      → Option Bool
      → Result (List (QueryMatch S))
      → Result (List (QueryMatch S))
  score_one vector rec none rest = err type_error
  score_one vector rec (some false) rest = rest
  score_one vector rec (some true) rest = add_match rec (cosine vector rec.vector) rest

  -- the loop over `ns.values()`
  unfoldable pub score_all :
      ValueOps → List F → Option DnfFilter → Dict (VectorRecord F) → Result (List (QueryMatch S))
  unfolding cosine
  score_all ops vector flt [] = ok []
  score_all ops vector flt ((rid, rec) ∷ ns) =
      score_one vector rec (match_filter ops rec.metadata flt) (score_all ops vector flt ns)

  -- `scored.sort(...)`: each match in turn, after the ones before it
  unfoldable pub sort_from : List (QueryMatch S) → List (QueryMatch S) → List (QueryMatch S)
  unfolding insert_match
  sort_from [] sorted = sorted
  sort_from (m ∷ ms) sorted = sort_from ms (insert_match m sorted)

  -- `scored[: max(0, top_k)]`, for a `top_k` that is not negative
  abbrev pub best : ℕ → Result (List (QueryMatch S)) → Result (List (QueryMatch S))
  best top_k (err e) = err e
  best top_k (ok scored) = ok (take top_k (sort_from scored []))

  abbrev pub query_in :
      ValueOps
      → List F
      → ℕ
      → Option DnfFilter
      → Option (Dict (VectorRecord F))
      → Result (List (QueryMatch S))
  query_in ops vector top_k flt none = err namespace_not_found
  query_in ops vector top_k flt (some ns) = best top_k (score_all ops vector flt ns)

  unfoldable pub query :
      ValueOps → String → List F → ℕ → Option DnfFilter → Store F → Result (List (QueryMatch S))
  unfolding score_all sort_from
  query ops namespace vector top_k flt s = query_in ops vector top_k flt (Dict.lookup namespace s)
