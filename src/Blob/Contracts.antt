-- ===== src/Blob/Contracts.antt =====
-- components/blobstorageadapter/contracts.py and errors.py. Of the metadata of a blob `etag` and
-- `custom` are left out, which the file adapter leaves at their defaults.
use lbpr.Prelude.{ℕ, String, Bool, Option, none, some, List, if◌then◌else◌}
use lbpr.Prelude.Int.{ℤ}
use lbpr.Text.{is_space}
use lbpr.Text.Strip.{strip, no_text}

abbrev pub Bytes : Type 0
Bytes = List ℕ

pub record BlobRef : Type 0 where
  pub tenant_id : String
  pub bucket : String
  pub key : String

-- `constr(strip_whitespace=True, min_length=1)`
unfoldable pub constrained : String → Option String
unfolding strip is_space no_text
constrained s = if no_text (strip is_space s) then none else some (strip is_space s)

pub record BlobMeta : Type 0 where
  pub size : Option ℕ
  pub content_type : Option String
  pub sha256 : Option String

-- The iterable of chunks is the list of what it yields.
pub record PutBlobRequest : Type 0 where
  pub ref : BlobRef
  pub content : Option Bytes
  pub chunks : Option (List Bytes)
  pub content_type : Option String
  pub overwrite : Bool
  pub compute_sha256 : Bool

pub record PutBlobResult : Type 0 where
  pub ref : BlobRef
  pub blob_meta : BlobMeta

pub record GetBlobRequest : Type 0 where
  pub ref : BlobRef
  pub range_start : Option ℤ
  pub range_end : Option ℤ

pub record HeadBlobResult : Type 0 where
  pub ref : BlobRef
  pub blob_meta : BlobMeta

pub record DeleteBlobRequest : Type 0 where
  pub ref : BlobRef
  pub missing_ok : Bool

pub record DeleteBlobResult : Type 0 where
  pub ref : BlobRef
  pub deleted : Bool

pub record ListBlobsRequest : Type 0 where
  pub tenant_id : String
  pub bucket : String
  pub prefix : String
  pub limit : ℕ
  pub cursor : Option String

pub record BlobItem : Type 0 where
  pub key : String
  pub size : ℕ

pub record ListBlobsResult : Type 0 where
  pub tenant_id : String
  pub bucket : String
  pub items : List BlobItem
  pub next_cursor : Option String

-- the errors of errors.py, and those of the operating system
pub data BlobError : Type 0 where
  not_found : BlobError
  conflict : BlobError
  validation : BlobError
  upstream : BlobError
  internal : BlobError
  os_error : BlobError

pub data Result (A : Type 0) : Type 0 where
  ok : A → Result A
  err : BlobError → Result A
