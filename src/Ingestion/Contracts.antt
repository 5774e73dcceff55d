-- ===== src/Ingestion/Contracts.antt =====
-- components/ingestionservice/contracts.py: requests, items, events and jobs. A time is a number,
-- an URL a text. `client_token` is read by nothing and left out.
use lbpr.Prelude.{ℕ, ◌+◌, String, Option, none, some, List, [], length}
use lbpr.Dict.{Dict}
use lbpr.Value.{Value}

pub data IngestionStatus : Type 0 where
  pending running submitted_to_indexer completed failed : IngestionStatus

pub record InlineFile : Type 0 where
  pub filename : String
  pub bytes_b64 : String
  pub content_type : String

pub record FileRef : Type 0 where
  pub filename : String
  pub blob_uri : String
  pub content_type : String

pub record CreateIngestionRequest : Type 0 where
  pub files : Option (List InlineFile)
  pub file_refs : Option (List FileRef)
  pub source_urls : Option (List String)

-- `x or []`
abbrev pub or_empty : {A : Type 0} → Option (List A) → List A
or_empty none = []
or_empty (some l) = l

unfoldable pub total_items : CreateIngestionRequest → ℕ
total_items req =
    length (or_empty req.files)
    + (length (or_empty req.file_refs) + length (or_empty req.source_urls))

pub record IngestionItem : Type 0 where
  pub kind : String
  pub filename : Option String
  pub blob_uri : Option String
  pub content_type : Option String
  pub size_bytes : Option ℕ
  pub metadata_id : Option String

pub record IngestionEvent : Type 0 where
  pub type : String
  pub message : String
  pub ts : ℕ
  pub info : Dict Value

pub record IngestionJob : Type 0 where
  pub id : String
  pub tenant_id : String
  pub status : IngestionStatus
  pub created_at : ℕ
  pub updated_at : ℕ
  pub items : List IngestionItem
  pub index_job_id : Option String
  pub events : List IngestionEvent
