-- ===== src/Metadata/Contracts.antt =====
-- components/metadataservice/contracts.py. The bounds that pydantic puts on lengths, and the options
-- of the model that nothing reads, are left out; a time is a number.
use lbpr.Prelude.{ℕ, String, Bool, Option, List}
use lbpr.Prelude.Int.{ℤ}

abbrev pub Bytes : Type 0
Bytes = List ℕ

-- An input with a text is an `ExtractTextInput` whatever its kind, and one with a `blob_uri` is an
-- `ExtractBlobInput` of any kind.
pub data ExtractInput : Type 0 where
  text_input : String → Option String → ExtractInput
  blob_input : String → String → Option String → ExtractInput

pub record ExtractOptions : Type 0 where
  pub tenant_id : String
  pub llm_enabled : Bool
  pub top_k : ℤ
  pub persist : Bool

pub record ExtractRequest : Type 0 where
  pub input : ExtractInput
  pub options : ExtractOptions

pub record Stats : Type 0 where
  pub chars : ℕ
  pub words : ℕ
  pub lines : ℕ
  pub reading_time_ms : ℕ

pub record MetadataRecord : Type 0 where
  pub metadata_id : String
  pub tenant_id : String
  pub source_id : Option String
  pub hash_sha256 : String
  pub size_bytes : ℕ
  pub mime_guess : String
  pub language_guess : String
  pub title : Option String
  pub stats : Stats
  pub keywords : List String
  pub summary : Option String
  pub categories : Option (List String)
  pub created_at : ℕ
  pub ingested_at : ℕ

-- the errors of contracts.py, and any other exception
pub data MetadataError : Type 0 where
  invalid_input : MetadataError
  blob_not_found : MetadataError
  llm_failed : MetadataError
  store_failed : MetadataError
  internal_error : MetadataError

unfoldable pub status_of : MetadataError → ℕ
status_of invalid_input = 400
status_of blob_not_found = 404
status_of llm_failed = 502
status_of store_failed = 500
status_of internal_error = 500

unfoldable pub code_of : MetadataError → String
code_of invalid_input = "metadata.invalid_input"
code_of blob_not_found = "metadata.blob_not_found"
code_of llm_failed = "metadata.llm_failed"
code_of store_failed = "metadata.store_failed"
code_of internal_error = "metadata.internal_error"

pub data Result (A : Type 0) : Type 0 where
  ok : A → Result A
  err : MetadataError → Result A

-- `LLMAdapterPort`; none is an exception
pub record LlmAdapter : Type 0 where
  pub summarize : String → String → Option String
  pub categorize : String → String → ℕ → Option (List String)
