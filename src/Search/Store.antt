-- ===== src/Search/Store.antt =====
-- components/searchservice/adapters_inmemory.py: `InMemoryVectorStoreAdapter`. The cosine of two
-- vectors and the order of scores are parameters. `list.sort` is stable, with `reverse=True` too.
use lbpr.Prelude.{
  ℕ, String, Bool, true, false, ◌&&◌, Option, none, some, List, [], ◌∷◌, map, length, take, drop,
  str_eq, if◌then◌else◌,
}
use lbpr.Dict.{Dict}
use lbpr.Text.Slice.{text_take}
use lbpr.Value.{Value}
use lbpr.Search.Contracts.{Filter, SearchHit, VectorHits}
use lbpr.Search.Filter.{Comparisons, apply_filter}

pub record Doc (F : Type 0) : Type 0 where
  pub id : String
  pub tenant_id : String
  pub vector : List F
  pub metadata : Dict Value
  pub text : String

pub record Scores (F S : Type 0) : Type 0 where
  pub zero_score : S
  pub cosine : List F → List F → S
  pub below : S → S → Bool

abbrev pub listed : String → List String → Bool
listed k [] = false
listed k (f ∷ fields) = let rest : Bool = listed k fields in if str_eq f k then true else rest

-- `{k: v for k, v in md.items() if k in metadata_fields}`
unfoldable pub keep_fields : List String → Dict Value → Dict Value
keep_fields fields [] = []
keep_fields fields ((k, v) ∷ md) =
    let rest : Dict Value = keep_fields fields md in if listed k fields then (k, v) ∷ rest else rest

-- all fields, where none are asked for
unfoldable pub projected : List String → Dict Value → Dict Value
unfolding keep_fields
projected [] md = md
projected (f ∷ fields) md = keep_fields (f ∷ fields) md

-- the documents with their scores
abbrev pub Ranking : Type 0 → Type 0 → Type 0
Ranking F S = List (S × Doc F)

abbrev pub window : {A : Type 0} → ℕ → ℕ → List A → List A
window top_k offset entries = take top_k (drop offset entries)

module _ {F : Type 0} where
  abbrev pub wanted : Comparisons → String → Filter → Doc F → Bool
  wanted ops tenant_id filters d =
      str_eq d.tenant_id tenant_id && apply_filter ops d.metadata filters

  unfoldable pub pool : Comparisons → String → Filter → List (Doc F) → List (Doc F)
  unfolding apply_filter
  pool ops tenant_id filters [] = []
  pool ops tenant_id filters (d ∷ docs) =
      let rest : List (Doc F) = pool ops tenant_id filters docs in
      if wanted ops tenant_id filters d then d ∷ rest else rest

module _ {F S : Type 0} where
  -- an entry goes before the first one that is below it
  unfoldable pub insert_ranked : Scores F S → S × Doc F → Ranking F S → Ranking F S
  insert_ranked scores e [] = e ∷ []
  insert_ranked scores e (x ∷ xs) =
      let rest : Ranking F S = insert_ranked scores e xs in
      if scores.below x.0 e.0 then e ∷ x ∷ xs else x ∷ rest

  unfoldable pub sort_ranked : Scores F S → Ranking F S → Ranking F S → Ranking F S
  unfolding insert_ranked
  sort_ranked scores [] sorted = sorted
  sort_ranked scores (e ∷ es) sorted = sort_ranked scores es (insert_ranked scores e sorted)

  -- without a vector every score is 0.0 and the order is that of the documents
  unfoldable pub ranked : Scores F S → Option (List F) → List (Doc F) → Ranking F S
  unfolding sort_ranked
  ranked scores none docs = map (λ d. (scores.zero_score, d)) docs
  ranked scores (some vector) docs =
      sort_ranked scores (map (λ d. (scores.cosine vector d.vector, d)) docs) []

  unfoldable pub hit_of : Bool → ℕ → List String → S × Doc F → SearchHit S
  unfolding projected text_take
  hit_of include_snippets snippet_max_chars metadata_fields (score, d) = record {
    doc_id = d.id;
    score = score;
    metadata = projected metadata_fields d.metadata;
    snippet = if include_snippets then some (text_take snippet_max_chars d.text) else none;
  }

  unfoldable pub query :
      Comparisons
      → Scores F S
      → List (Doc F)
      → String
      → Option (List F)
      → ℕ
      → ℕ
      → Filter
      → Bool
      → ℕ
      → List String
      → VectorHits S
  unfolding pool ranked hit_of
  query ops scores docs tenant_id vector top_k offset filters include_snippets snippet_max_chars
        metadata_fields =
      let entries : Ranking F S = ranked scores vector (pool ops tenant_id filters docs) in
      record {
        total = length entries;
        hits =
            map (hit_of include_snippets snippet_max_chars metadata_fields)
              (window top_k offset entries);
      }

abbrev pub count_documents : {F : Type 0} → List (Doc F) → ℕ
count_documents docs = length docs
