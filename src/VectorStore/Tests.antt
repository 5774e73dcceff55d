-- ===== src/VectorStore/Tests.antt =====
-- Two records in a namespace, one of them deleted.
use lbpr.Prelude.{
  ℕ, String, ◌≡◌, refl, true, false, none, some, [], ◌∷◌, ◌⊎◌, ◌↔◌, if◌then◌else◌, length, ltb,
  arith,
}
use lbpr.Dict
use lbpr.Dict.{Dict, lookup, insert}
use lbpr.Value.{Value}
use lbpr.VectorStore.Models.{VectorRecord, ok, DnfFilter, exists, eq}
use lbpr.VectorStore.Filter.{ValueOps, match_filter}
use lbpr.VectorStore.Adapter.{Store, upsert, delete, fetch, stats}
use lbpr.VectorStore.Matching.{Decides, match_filter-true}
use lbpr.VectorStore.Ranking.{QueryMatch, Scores, query}
use lbpr.VectorStore.Ranked.{BestOf, query-Ranked}
use lbpr.VectorStore.Fetching.{is_listed, fetch-delete}

abbrev record_of : String → VectorRecord ℕ
record_of id = record {
  id = id;
  vector = 1 ∷ [];
  metadata = [];
  text = none;
  document_id = none;
  chunk_id = none;
}

abbrev ops : ValueOps
ops = record {
  equals = λ a b. true;
  greater = λ a b. none;
  greater_equal = λ a b. none;
  less = λ a b. none;
  less_equal = λ a b. none;
  member = λ a b. none;
}

abbrev filled : Store ℕ
filled = (upsert "n" (record_of "a" ∷ record_of "b" ∷ []) []).1

two_counted : stats "" filled ≡ ("n", 2) ∷ []
unfolding stats upsert insert lookup
two_counted = refl

abbrev both : Dict (VectorRecord ℕ)
both = ("a", record_of "a") ∷ ("b", record_of "b") ∷ []

there : Dict.lookup "n" filled ≡ some both
unfolding upsert insert lookup
there = refl

fetch-delete_example :
    (n : ℕ) × ((delete ops "n" ("a" ∷ []) none filled).0 ≡ ok n)
    × ((found : Dict (VectorRecord ℕ)) × (fetch "n"
            ("a" ∷ "b" ∷ [])
            (delete ops "n" ("a" ∷ []) none filled).1
          ≡ ok found)
        × ((j : String)
            → Dict.lookup j found ≡ (
                if is_listed j ("a" ∷ "b" ∷ [])
                then if is_listed j ("a" ∷ []) then none else Dict.lookup j both
                else none)))
fetch-delete_example = fetch-delete ops "n" "a" [] ("a" ∷ "b" ∷ []) none filled both there

-- two groups, of which the second holds
abbrev either : DnfFilter
either = record {
  groups =
      (record { field = "k"; op = exists; value = Value.null } ∷ [])
      ∷ (record { field = "k"; op = eq; value = Value.null } ∷ [])
      ∷ [];
}

passes : match_filter ops [] (some either) ≡ some true
unfolding match_filter lookup
passes = refl

match_filter-true_example :
    (match_filter ops [] (some either) ≡ some true)
    ↔ ((either.groups ≡ []) ⊎ Decides ops [] either.groups)
match_filter-true_example = match_filter-true ops [] either

-- scores that are numbers, the number of components here
abbrev by_length : Scores ℕ ℕ
by_length = record { similarity = λ a b. length b; below = λ a b. ltb a b }

abbrev ranked_first : QueryMatch ℕ
ranked_first = record { id = "a"; score = 1; metadata = []; text = none }

queried : query by_length ops "n" (5 ∷ []) 1 none filled ≡ ok (ranked_first ∷ [])
unfolding query match_filter upsert insert lookup
queried = refl

asymmetric : (a b : ℕ) → ltb a b ≡ true → ltb b a ≡ false
asymmetric a b h = ground arith

cotransitive : (a b c : ℕ) → ltb a b ≡ false → ltb b c ≡ false → ltb a c ≡ false
cotransitive a b c h k = ground arith

query-Ranked_example :
    (ns : Dict (VectorRecord ℕ)) × (Dict.lookup "n" filled ≡ some ns)
    × BestOf by_length ops (5 ∷ []) 1 none ns (ranked_first ∷ [])
query-Ranked_example =
    query-Ranked by_length asymmetric cotransitive ops "n" (5 ∷ []) 1 none filled
      (ranked_first ∷ []) queried
