-- ===== src/Search/Tests.antt =====
-- A search over three documents of two tenants.
use mathlib.Core.List.{Memᴰ}
use lbpr.Prelude.{
  ℕ, ◌≡◌, refl, String, true, false, Option, none, some, List, [], ◌∷◌, map, take, drop, length,
  ltb, arith, All,
}
use lbpr.Dict.{lookup}
use lbpr.Value.{Value}
use lbpr.Search.Contracts.{semantic, eq, SearchRequest, SearchResponse, is_valid, SearchHit}
use lbpr.Search.Filter.{Comparisons}
use lbpr.Search.Store.{Doc, Scores, Ranking, pool}
use lbpr.Search.Core.{Embedding, query_vector, execute_search, post_search, answer, refusal}
use lbpr.Search.Ranks.{Ranks}
use lbpr.Search.Windows.{shown, IsWanted, execute_search-Ranks}

abbrev doc : String → String → ℕ → Doc ℕ
doc id tenant n = record {
  id = id;
  tenant_id = tenant;
  vector = n ∷ [];
  metadata = ("title", Value.text id) ∷ ("path", Value.text "/") ∷ [];
  text = "text";
}

abbrev docs : List (Doc ℕ)
docs = doc "a" "test-tenant" 1 ∷ doc "b" "alpha" 5 ∷ doc "c" "test-tenant" 3 ∷ []

abbrev first_number : List ℕ → ℕ
first_number [] = 0
first_number (n ∷ ns) = n

abbrev scores : Scores ℕ ℕ
scores = record { zero_score = 0; cosine = λ a b. first_number b; below = λ a b. ltb a b }

abbrev ops : Comparisons
ops = record {
  equals = λ a b. true;
  less = λ a b. none;
  less_equal = λ a b. none;
  greater = λ a b. none;
  greater_equal = λ a b. none;
  member = λ a b. none;
}

abbrev request : SearchRequest
request = record {
  query = some "law";
  top_k = 1;
  offset = 0;
  search_type = semantic;
  fusion = none;
  filters = record {
    must = record { field = "title"; op = eq; value = Value.null } ∷ [];
    should = [];
    must_not = [];
  };
  include_snippets = true;
  snippet_max_chars = 32;
  metadata_fields = "title" ∷ [];
}

request_valid : is_valid request ≡ true
unfolding is_valid
request_valid = refl

abbrev embedding : Option (Embedding ℕ)
embedding = some (λ s. some (7 ∷ []))

embedded_query : query_vector embedding request ≡ some (some (7 ∷ []))
unfolding query_vector
embedded_query = refl

asymmetric : (a b : ℕ) → ltb a b ≡ true → ltb b a ≡ false
asymmetric a b h = ground arith

cotransitive : (a b c : ℕ) → ltb a b ≡ false → ltb b c ≡ false → ltb a c ≡ false
cotransitive a b c h k = ground arith

execute_search-Ranks_example :
    (entries : Ranking ℕ ℕ) × Ranks scores
      (some (7 ∷ []))
      (pool ops "test-tenant" request.filters docs)
      entries
    × All (IsWanted ops "test-tenant" request.filters) (pool ops "test-tenant" request.filters docs)
    × ((d : Doc ℕ)
        → Memᴰ d docs
        → IsWanted ops "test-tenant" request.filters d
        → Memᴰ d (pool ops "test-tenant" request.filters docs))
    × ((top_k offset : ℕ)
        → (resp : SearchResponse ℕ) × (execute_search ops scores docs "test-tenant"
              (record request { top_k = top_k; offset = offset })
              embedding
            ≡ some resp)
          × (resp.total ≡ length entries)
          × (resp.hits ≡ map (shown request) (take top_k (drop offset entries))))
execute_search-Ranks_example =
    execute_search-Ranks ops scores asymmetric cotransitive docs "test-tenant" request embedding
      (some (7 ∷ [])) embedded_query

abbrev best_hit : SearchHit ℕ
best_hit = record {
  doc_id = "c";
  score = 3;
  metadata = ("title", Value.text "c") ∷ [];
  snippet = some "text";
}

searched :
    post_search ops scores docs (some "1") request embedding
    ≡ answer (record { total = 2; hits = best_hit ∷ [] })
unfolding post_search lookup
searched = refl

unauthorized : post_search ops scores docs none request embedding ≡ refusal 401
unfolding post_search
unauthorized = refl
