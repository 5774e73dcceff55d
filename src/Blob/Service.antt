-- ===== src/Blob/Service.antt =====
-- components/blobstorageadapter/service.py: `BlobService` over the adapter of Adapter and Listing.
-- Logging, tracing, measured times and the texts of errors are left out.
use lbpr.Prelude.{String, Option, none}
use lbpr.Blob.Contracts.{
  Bytes, BlobRef, PutBlobRequest, PutBlobResult, HeadBlobResult, DeleteBlobRequest,
  DeleteBlobResult, ListBlobsRequest, ListBlobsResult, BlobError, not_found, conflict, validation,
  upstream, internal, os_error, Result, ok, err,
}
use lbpr.Blob.Files.{Files}
use lbpr.Blob.Adapter.{head_blob, delete_blob}
use lbpr.Blob.Listing.{list_blobs}

-- `ErrorPayload` without its message
pub record ErrorPayload : Type 0 where
  pub error_type : String
  pub code : String

abbrev pub payload : String → String → ErrorPayload
payload error_type code = record { error_type = error_type; code = code }

unfoldable pub uwf_err : BlobError → ErrorPayload
uwf_err validation = payload "VALIDATION" "BLOB_VALIDATION"
uwf_err not_found = payload "NOT_FOUND" "BLOB_NOT_FOUND"
uwf_err conflict = payload "CONFLICT" "BLOB_CONFLICT"
uwf_err upstream = payload "UPSTREAM" "BLOB_UPSTREAM"
uwf_err internal = payload "INTERNAL" "BLOB_INTERNAL"
uwf_err os_error = payload "INTERNAL" "BLOB_INTERNAL"

pub data Answered (A : Type 0) : Type 0 where
  uwf_ok : A → Answered A
  uwf_error : ErrorPayload → Answered A

-- `UWFResponse` with its meta
pub record UwfResponse (A : Type 0) : Type 0 where
  pub answered : Answered A
  pub tenant_id : String
  pub adapter : String

abbrev pub answer_of : {A : Type 0} → Result A → Answered A
answer_of (ok a) = uwf_ok a
answer_of (err e) = uwf_error (uwf_err e)

abbrev pub respond : {A : Type 0} → String → String → Result A → UwfResponse A
respond tenant_id adapter r = record {
  answered = answer_of r;
  tenant_id = tenant_id;
  adapter = adapter;
}

module _ {S FilePath : Type 0} (files : Files S FilePath) (sha256 : Bytes → String)
    (root : FilePath) (adapter_name : String) where
  -- The meta of the answer is made from `req.ref.ref`, which no reference has, before the `try`:
  -- the AttributeError leaves the service, and the adapter is not called.
  abbrev pub put : PutBlobRequest → S → Option (UwfResponse PutBlobResult) × S
  put req s = (none, s)

  unfoldable pub head : BlobRef → S → UwfResponse HeadBlobResult
  unfolding uwf_err
  head ref s = respond ref.tenant_id adapter_name (head_blob files sha256 root ref s)

  abbrev pub respond_delete :
      BlobRef → Result DeleteBlobResult × S → UwfResponse DeleteBlobResult × S
  respond_delete ref (r, s) = (respond ref.tenant_id adapter_name r, s)

  unfoldable pub delete : DeleteBlobRequest → S → UwfResponse DeleteBlobResult × S
  unfolding uwf_err
  delete req s = respond_delete req.ref (delete_blob files sha256 root req s)

  unfoldable pub list : ListBlobsRequest → S → UwfResponse ListBlobsResult
  unfolding uwf_err
  list req s = respond req.tenant_id adapter_name (list_blobs files root req s)

  -- The adapter knows no presigned urls and answers None, whatever the request.
  abbrev pub presign : BlobRef → UwfResponse (Option String)
  presign ref = record { answered = uwf_ok none; tenant_id = ref.tenant_id; adapter = adapter_name }
