-- ===== src/Search/Core.antt =====
-- components/searchservice/core.py: `execute_search`, with the store of Store, and of service.py the
-- tenant of a request and the route. The embedding adapter is an argument, none where there is none;
-- its call answers or raises.
use lbpr.Prelude.{
  ℕ, String, Bool, true, false, ◌&&◌, not, Option, none, some, List, map, str_eq, if◌then◌else◌,
}
use lbpr.Text.Strip.{no_text}
use lbpr.Search.Contracts.{
  SearchType, semantic, keyword, hybrid, SearchRequest, SearchHit, SearchResponse, VectorHits,
}
use lbpr.Search.Filter.{Comparisons}
use lbpr.Search.Store.{Doc, Scores, projected, query}

abbrev pub Embedding : Type 0 → Type 0
Embedding F = String → Option (List F)

abbrev pub is_semantic : SearchType → Bool
is_semantic semantic = true
is_semantic hybrid = true
is_semantic keyword = false

-- a vector, or none of them; the outer none is an exception
module _ {F : Type 0} where
  abbrev pub embedded : Option (Embedding F) → String → Option (Option (List F))
  embedded none text = none
  embedded (some embed) text = elim (embed text) [ none ↦ none | some v ↦ some (some v) ]

  abbrev pub vector_for : Option (Embedding F) → Bool → Option String → Option (Option (List F))
  vector_for embedding wants none = some none
  vector_for embedding wants (some text) =
      if wants && not (no_text text) then embedded embedding text else some none

  unfoldable pub query_vector : Option (Embedding F) → SearchRequest → Option (Option (List F))
  unfolding no_text
  query_vector embedding req = vector_for embedding (is_semantic req.search_type) req.query

-- the fields are picked once more
unfoldable pub to_hit : {S : Type 0} → List String → SearchHit S → SearchHit S
unfolding projected
to_hit fields h = record h { metadata = projected fields h.metadata }

abbrev pub to_response : {S : Type 0} → List String → VectorHits S → SearchResponse S
to_response fields vhits = record { total = vhits.total; hits = map (to_hit fields) vhits.hits }

module _ {F S : Type 0} (ops : Comparisons) (scores : Scores F S) (docs : List (Doc F)) where
  abbrev pub search_with :
      String → SearchRequest → Option (Option (List F)) → Option (SearchResponse S)
  search_with tenant_id req none = none
  search_with tenant_id req (some vector) = some (
      to_response req.metadata_fields (
        query ops scores docs tenant_id vector req.top_k req.offset req.filters req.include_snippets
          req.snippet_max_chars req.metadata_fields))

  unfoldable pub execute_search :
      String → SearchRequest → Option (Embedding F) → Option (SearchResponse S)
  unfolding query_vector to_hit query
  execute_search tenant_id req embedding = search_with tenant_id req (query_vector embedding req)

-- a status of HTTP with its detail, or the answer
pub data Reply (A : Type 0) : Type 0 where
  answer : A → Reply A
  refusal : ℕ → Reply A

-- `get_tenant_id`, none where it raises a 401
unfoldable pub get_tenant_id : Option String → Option String
get_tenant_id none = none
get_tenant_id (some bypass) = if str_eq bypass "1" then some "test-tenant" else none

abbrev pub or_failed : {A : Type 0} → Option A → Reply A
or_failed none = refusal 500
or_failed (some a) = answer a

module _ {F S : Type 0} (ops : Comparisons) (scores : Scores F S) (docs : List (Doc F)) where
  abbrev pub search_as :
      Option String → SearchRequest → Option (Embedding F) → Reply (SearchResponse S)
  search_as none req embedding = refusal 401
  search_as (some tenant_id) req embedding =
      or_failed (execute_search ops scores docs tenant_id req embedding)

  unfoldable pub post_search :
      Option String → SearchRequest → Option (Embedding F) → Reply (SearchResponse S)
  unfolding get_tenant_id execute_search
  post_search bypass req embedding = search_as (get_tenant_id bypass) req embedding
