-- ===== src/Metadata/Extracts.antt =====
-- What an extraction answers and what is found afterwards.
use lbpr.Prelude.{
  ℕ, ◌≡◌, refl, ap, ◌∙◌, String, Bool, true, false, ◌&&◌, none, some, [], ◌∷◌, str_eq, eq_iff,
  arith, if◌then◌else◌, Bool-cases, inl, inr,
}
use lbpr.Metadata.Contracts.{ExtractRequest, MetadataRecord, Result, ok, err}
use lbpr.Metadata.Service.{
  Libs, Dependencies, Db, same_key, store_upsert, store_get, ensure_text, Extraction, record_of,
  recorded, llm_extract, build_record, built, make_record, Reply, answer, refusal, persisted,
  extract, get_metadata,
}

store_get-store_upsert :
    (rec : MetadataRecord) (t i : String) (db : Db)
    → store_get t i (store_upsert rec db)
      ≡ (if same_key (rec.tenant_id, rec.metadata_id) (t, i) then some rec else store_get t i db)
unfolding store_get store_upsert
store_get-store_upsert rec t i [] = refl
store_get-store_upsert rec t i (((u, j), old) ∷ db) = ground (
  arith,
  eq_iff u rec.tenant_id,
  eq_iff j rec.metadata_id,
  eq_iff u t,
  eq_iff j i,
  eq_iff rec.tenant_id t,
  eq_iff rec.metadata_id i,
  store_get-store_upsert rec t i db,
)

-- whom a record is kept for, and by which id
record IsKept (tenant_id metadata_id : String) (rec : MetadataRecord) : Type 0 where
  owner : rec.tenant_id ≡ tenant_id
  named : rec.metadata_id ≡ metadata_id

-- what a reading shows after an extraction for a tenant under an id
abbrev pub shown_after :
    String → String → Bool → (String → String → Reply) → Reply → String → String → Reply
shown_after tenant_id metadata_id persist before (refusal n) i t = before i t
shown_after tenant_id metadata_id persist before (answer rec) i t =
    if persist && (str_eq tenant_id t && str_eq metadata_id i) then answer rec else before i t

get_metadata-store_upsert :
    (rec : MetadataRecord) (db : Db) (i t : String)
    → get_metadata i t (store_upsert rec db) ≡ (
        if str_eq rec.tenant_id t && str_eq rec.metadata_id i
        then answer rec
        else get_metadata i t db)
unfolding get_metadata
get_metadata-store_upsert rec db i t =
    rw (store_get-store_upsert rec t i db)
      (elim (Bool-cases (str_eq rec.tenant_id t && str_eq rec.metadata_id i)) [
        | inl same ↦ rw same refl
        | inr other ↦ rw other refl
      ])

persisted-shown :
    (tenant_id metadata_id : String) (persist : Bool) (db : Db) (r : Result MetadataRecord)
    → ((rec : MetadataRecord) → r ≡ ok rec → IsKept tenant_id metadata_id rec)
    → (i t : String)
    → get_metadata i t (persisted persist r db).1
      ≡ shown_after tenant_id metadata_id persist
          (λ j u. get_metadata j u db)
          (persisted persist r db).0
          i
          t
persisted-shown tenant_id metadata_id persist db (err e) kept i t = refl
persisted-shown tenant_id metadata_id false db (ok rec) kept i t = refl
persisted-shown tenant_id metadata_id true db (ok rec) kept i t =
    let is_kept : IsKept tenant_id metadata_id rec = kept rec refl in
    get_metadata-store_upsert rec db i t
    ∙ ap (λ o. if str_eq o t && str_eq rec.metadata_id i then answer rec else get_metadata i t db)
        is_kept.owner
    ∙ ap (λ n. if str_eq tenant_id t && str_eq n i then answer rec else get_metadata i t db)
        is_kept.named

module _ (libs : Libs) (d : Dependencies) (metadata_id : String) (now : ℕ)
    (req : ExtractRequest) where
  recorded-IsKept :
      (text : String) (size : ℕ) (r : Result Extraction) (rec : MetadataRecord)
      → recorded libs d metadata_id now text size req r ≡ ok rec
      → IsKept req.options.tenant_id metadata_id rec
  recorded-IsKept text size (err e) rec h = cc
  recorded-IsKept text size (ok x) rec h =
      let same : record_of libs d metadata_id now text size req x ≡ rec = cc in
      rw (← same) (record { owner = refl; named = refl })

  built-IsKept :
      (r : Result (String × ℕ)) (rec : MetadataRecord)
      → built libs d metadata_id now req r ≡ ok rec
      → IsKept req.options.tenant_id metadata_id rec
  unfolding build_record
  built-IsKept (err e) rec h = cc
  built-IsKept (ok (text, size)) rec h =
      recorded-IsKept text size
        (llm_extract (if req.options.llm_enabled then d.llm else none) req.options.llm_enabled text
          req.options.tenant_id)
        rec h

  -- After an extraction its record is found by its id, for the tenant of the request and no other,
  -- if it was to be kept; every other reading, and after a refusal every reading, is as before.
  pub get_metadata-extract :
      (db : Db) (i t : String)
      → get_metadata i t (extract libs d metadata_id now req db).1
        ≡ shown_after req.options.tenant_id metadata_id req.options.persist
            (λ j u. get_metadata j u db)
            (extract libs d metadata_id now req db).0
            i
            t
  unfolding extract make_record
  get_metadata-extract db i t =
      persisted-shown req.options.tenant_id metadata_id req.options.persist db
        (make_record libs d metadata_id now req)
        (λ rec made. built-IsKept (ensure_text libs d req.input) rec made) i t
