-- ===== src/Search/Windows.antt =====
-- The answers to a search, window by window.
use mathlib.Core.List.{Memᴰ}
use lbpr.Prelude.{
  ℕ, ◌≡◌, refl, ap, ◌∙◌, String, true, false, Option, none, some, List, [], ◌∷◌, map, take, drop,
  length, All, Bool-cases, inl, inr, eq_iff, arith, if◌then◌else◌,
}
use lbpr.Dict.{Dict}
use lbpr.Value.{Value}
use lbpr.Text.Slice.{text_take}
use lbpr.Search.Contracts.{Filter, SearchRequest, SearchHit, SearchResponse}
use lbpr.Search.Filter.{Comparisons, apply_filter}
use lbpr.Search.Store.{
  Doc, Scores, Ranking, listed, keep_fields, projected, wanted, pool, ranked, hit_of, window, query,
}
use lbpr.Search.Core.{Embedding, query_vector, to_hit, to_response, search_with, execute_search}
use lbpr.Search.Ranks.{Ranks, ranked-Ranks}

keep_fields_idem :
    (fields : List String) (md : Dict Value)
    → keep_fields fields (keep_fields fields md) ≡ keep_fields fields md
unfolding keep_fields
keep_fields_idem fields [] = refl
keep_fields_idem fields (e ∷ md) = elim (Bool-cases (listed e.0 fields)) [
  | inl there ↦ rw there (rw there (ap (λ l. e ∷ l) (keep_fields_idem fields md)))
  | inr absent ↦ rw absent (keep_fields_idem fields md)
]

projected_idem :
    (fields : List String) (md : Dict Value)
    → projected fields (projected fields md) ≡ projected fields md
unfolding projected
projected_idem [] md = refl
projected_idem (f ∷ fields) md = keep_fields_idem (f ∷ fields) md

module _ {F S : Type 0} where
  -- what a request shows of a document with its score
  abbrev pub shown : SearchRequest → S × Doc F → SearchHit S
  shown req (score, d) = record {
    doc_id = d.id;
    score = score;
    metadata = projected req.metadata_fields d.metadata;
    snippet = if req.include_snippets then some (text_take req.snippet_max_chars d.text) else none;
  }

  map-shown :
      (req : SearchRequest) (entries : Ranking F S)
      → map
          (to_hit req.metadata_fields)
          (map (hit_of req.include_snippets req.snippet_max_chars req.metadata_fields) entries)
        ≡ map (shown req) entries
  unfolding to_hit hit_of
  map-shown req [] = refl
  map-shown req ((score, d) ∷ entries) =
      ap
        (λ md.
          record {
            doc_id = d.id;
            score = score;
            metadata = md;
            snippet =
                if req.include_snippets
                then some (text_take req.snippet_max_chars d.text)
                else none;
          }
          ∷ map (to_hit req.metadata_fields)
              (map (hit_of req.include_snippets req.snippet_max_chars req.metadata_fields) entries))
        (projected_idem req.metadata_fields d.metadata)
      ∙ ap (λ hits. shown req (score, d) ∷ hits) (map-shown req entries)

module _ {F : Type 0} (ops : Comparisons) (tenant_id : String) (filters : Filter) where
  -- a document of the tenant that the filter lets through
  abbrev pub IsWanted : Doc F → Type 0
  IsWanted d = (d.tenant_id ≡ tenant_id) × (apply_filter ops d.metadata filters ≡ true)

  pool-All : (docs : List (Doc F)) → All IsWanted (pool ops tenant_id filters docs)
  unfolding pool
  pool-All [] = tt
  pool-All (d ∷ docs) = elim (Bool-cases (wanted ops tenant_id filters d)) [
    | inl kept ↦ rw kept (ground (arith, eq_iff d.tenant_id tenant_id), pool-All docs)
    | inr left ↦ rw left (pool-All docs)
  ]

  pool-complete :
      (d : Doc F) (docs : List (Doc F))
      → Memᴰ d docs
      → IsWanted d
      → Memᴰ d (pool ops tenant_id filters docs)
  unfolding pool
  pool-complete d [] there is_wanted = elim there [ ]
  pool-complete d (x ∷ docs) (Memᴰ.head same) (own, passing) =
      let kept : wanted ops tenant_id filters x ≡ true =
        rw (← same) (ground (arith, eq_iff d.tenant_id tenant_id)) in
      rw kept (Memᴰ.head same)
  pool-complete d (x ∷ docs) (Memᴰ.tail there) is_wanted =
      elim (Bool-cases (wanted ops tenant_id filters x)) [
        | inl kept ↦ rw kept (Memᴰ.tail (pool-complete d docs there is_wanted))
        | inr left ↦ rw left (pool-complete d docs there is_wanted)
      ]

module _ {F S : Type 0} (ops : Comparisons) (scores : Scores F S)
    (asymmetric : (a b : S) → scores.below a b ≡ true → scores.below b a ≡ false)
    (cotransitive : (a b c : S)
      → scores.below a b ≡ false
      → scores.below b c ≡ false
      → scores.below a c ≡ false) where
  -- If scores are ordered (an order and its converse never hold at once, and "not below" composes)
  -- and the query has its vector, there is one ranking, by scores and the best first, of the
  -- documents that are of the tenant and pass the filter, of all of these and of no other, of which
  -- every search answers the window that its offset and its top_k cut out, and the number of all of
  -- them as the total.
  pub execute_search-Ranks :
      (docs : List (Doc F)) (tenant_id : String) (req : SearchRequest)
      (embedding : Option (Embedding F)) (vector : Option (List F))
      → query_vector embedding req ≡ some vector
      → (entries : Ranking F S) × Ranks scores vector (pool ops tenant_id req.filters docs) entries
        × All (IsWanted ops tenant_id req.filters) (pool ops tenant_id req.filters docs)
        × ((d : Doc F)
            → Memᴰ d docs
            → IsWanted ops tenant_id req.filters d
            → Memᴰ d (pool ops tenant_id req.filters docs))
        × ((top_k offset : ℕ)
            → (resp : SearchResponse S) × (execute_search ops scores docs tenant_id
                  (record req { top_k = top_k; offset = offset })
                  embedding
                ≡ some resp)
              × (resp.total ≡ length entries)
              × (resp.hits ≡ map (shown req) (take top_k (drop offset entries))))
  unfolding execute_search query query_vector
  execute_search-Ranks docs tenant_id req embedding vector found =
      let wanted_docs : List (Doc F) = pool ops tenant_id req.filters docs in
      let entries : Ranking F S = ranked scores vector wanted_docs in
      (
        entries,
        ranked-Ranks scores asymmetric cotransitive vector wanted_docs,
        pool-All ops tenant_id req.filters docs,
        λ d there is_wanted. pool-complete ops tenant_id req.filters d docs there is_wanted,
        λ top_k offset. (
          to_response req.metadata_fields (
              query ops scores docs tenant_id vector top_k offset req.filters req.include_snippets
                req.snippet_max_chars req.metadata_fields),
          ap (search_with ops scores docs tenant_id (record req { top_k = top_k; offset = offset }))
              found,
          refl,
          map-shown req (window top_k offset entries),
        ),
      )
