-- ===== src/Metadata/Service.antt =====
-- components/metadataservice/service.py: the readers of input, `build_record`, the store in memory and
-- the two routes. Logging and spans are left out. A call takes the id and the time that it draws.
use lbpr.Prelude.{
  ℕ, String, Bool, ◌&&◌, Option, none, some, List, [], ◌∷◌, max, length, str_eq, if◌then◌else◌,
}
use lbpr.Dict
use lbpr.Dict.{Dict}
use lbpr.Prelude.Int.{ℤ, pos, negsuc}
use lbpr.Metadata.Contracts.{
  Bytes, ExtractInput, text_input, blob_input, ExtractRequest, MetadataRecord, invalid_input,
  blob_not_found, llm_failed, internal_error, status_of, Result, ok, err, LlmAdapter,
}
use lbpr.Metadata.Guess.{guess_language, guess_mime, title_guess, stats_of}

-- What is used of Python: UTF-8, its decoding with replacements, and SHA-256 in hexadecimal; and the
-- rounding of the reading time of a number of words.
pub record Libs : Type 0 where
  pub encode : String → Bytes
  pub decode : Bytes → String
  pub sha256_hex : Bytes → String
  pub reading_time : ℕ → ℕ

-- `Dependencies`: the ports but for the store
pub record Dependencies : Type 0 where
  pub read_blob : String → Result Bytes
  pub top_keywords : String → ℕ → String → List String
  pub llm : Option LlmAdapter

abbrev pub blob_or_missing : Option Bytes → Result Bytes
blob_or_missing none = err blob_not_found
blob_or_missing (some raw) = ok raw

-- `InMemoryBlobReader.read`
unfoldable pub read_in : Dict Bytes → String → Result Bytes
read_in blobs blob_uri = blob_or_missing (Dict.lookup blob_uri blobs)

-- the records by their tenants and ids
abbrev pub Db : Type 0
Db = List ((String × String) × MetadataRecord)

abbrev pub same_key : String × String → String × String → Bool
same_key (t, i) (u, j) = str_eq t u && str_eq i j

unfoldable pub store_upsert : MetadataRecord → Db → Db
store_upsert rec [] = ((rec.tenant_id, rec.metadata_id), rec) ∷ []
store_upsert rec ((key, old) ∷ db) =
    let rest : Db = store_upsert rec db in
    if same_key key (rec.tenant_id, rec.metadata_id)
    then ((rec.tenant_id, rec.metadata_id), rec) ∷ db
    else (key, old) ∷ rest

unfoldable pub store_get : String → String → Db → Option MetadataRecord
store_get tenant_id metadata_id [] = none
store_get tenant_id metadata_id ((key, rec) ∷ db) =
    let rest : Option MetadataRecord = store_get tenant_id metadata_id db in
    if same_key key (tenant_id, metadata_id) then some rec else rest

abbrev pub decoded : Libs → Result Bytes → Result (String × ℕ)
decoded libs (err e) = err e
decoded libs (ok raw) = ok (libs.decode raw, length raw)

-- A blob whose kind is "text" is asked for a text that it does not have, an AttributeError.
unfoldable pub ensure_text : Libs → Dependencies → ExtractInput → Result (String × ℕ)
ensure_text libs d (text_input text source_id) = ok (text, length (libs.encode text))
ensure_text libs d (blob_input kind blob_uri source_id) =
    if str_eq kind "text"
    then err internal_error
    else if str_eq kind "blob"
    then decoded libs (d.read_blob blob_uri)
    else err invalid_input

abbrev pub source_of : ExtractInput → Option String
source_of (text_input text source_id) = source_id
source_of (blob_input kind blob_uri source_id) = source_id

-- a summary and categories, where the model is asked for them
abbrev pub Extraction : Type 0
Extraction = Option String × Option (List String)

abbrev pub categorized : String → Option (List String) → Result Extraction
categorized summary none = err llm_failed
categorized summary (some categories) = ok (some summary, some categories)

abbrev pub summarized : LlmAdapter → String → String → Option String → Result Extraction
summarized llm text tenant_id none = err llm_failed
summarized llm text tenant_id (some summary) = categorized summary (llm.categorize text tenant_id 5)

unfoldable pub llm_extract : Option LlmAdapter → Bool → String → String → Result Extraction
llm_extract none enabled text tenant_id = ok (none, none)
llm_extract (some llm) enabled text tenant_id =
    if enabled
    then summarized llm text tenant_id (llm.summarize text tenant_id)
    else ok (none, none)

-- `max(1, top_k)`
abbrev pub at_least_one : ℤ → ℕ
at_least_one (pos n) = max 1 n
at_least_one (negsuc n) = 1

module _ (libs : Libs) (d : Dependencies) (metadata_id : String) (now : ℕ) where
  abbrev pub record_of : String → ℕ → ExtractRequest → Extraction → MetadataRecord
  record_of text size req (summary, categories) = record {
    metadata_id = metadata_id;
    tenant_id = req.options.tenant_id;
    source_id = source_of req.input;
    hash_sha256 = libs.sha256_hex (libs.encode text);
    size_bytes = size;
    mime_guess = guess_mime text;
    language_guess = guess_language text;
    title = title_guess text;
    stats = stats_of libs.reading_time text;
    keywords = d.top_keywords text (at_least_one req.options.top_k) (guess_language text);
    summary = summary;
    categories = categories;
    created_at = now;
    ingested_at = now;
  }

  abbrev pub recorded : String → ℕ → ExtractRequest → Result Extraction → Result MetadataRecord
  recorded text size req (err e) = err e
  recorded text size req (ok extraction) = ok (record_of text size req extraction)

  unfoldable pub build_record : ExtractRequest → String → ℕ → Result MetadataRecord
  unfolding llm_extract
  build_record req text size = recorded text size req (
      llm_extract (if req.options.llm_enabled then d.llm else none) req.options.llm_enabled text
        req.options.tenant_id)

  abbrev pub built : ExtractRequest → Result (String × ℕ) → Result MetadataRecord
  built req (err e) = err e
  built req (ok (text, size)) = build_record req text size

  unfoldable pub make_record : ExtractRequest → Result MetadataRecord
  unfolding ensure_text build_record
  make_record req = built req (ensure_text libs d req.input)

-- an answer, or an HTTPException with its status
pub data Reply : Type 0 where
  answer : MetadataRecord → Reply
  refusal : ℕ → Reply

abbrev pub persisted : Bool → Result MetadataRecord → Db → Reply × Db
persisted persist (err e) db = (refusal (status_of e), db)
persisted persist (ok rec) db = (answer rec, if persist then store_upsert rec db else db)

unfoldable pub extract : Libs → Dependencies → String → ℕ → ExtractRequest → Db → Reply × Db
unfolding make_record status_of
extract libs d metadata_id now req db =
    persisted req.options.persist (make_record libs d metadata_id now req) db

abbrev pub found_or_404 : Option MetadataRecord → Reply
found_or_404 none = refusal 404
found_or_404 (some rec) = answer rec

unfoldable pub get_metadata : String → String → Db → Reply
unfolding store_get
get_metadata metadata_id tenant_id db = found_or_404 (store_get tenant_id metadata_id db)
