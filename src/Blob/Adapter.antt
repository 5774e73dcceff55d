-- ===== src/Blob/Adapter.antt =====
-- components/blobstorageadapter/adapters/local_fs.py: `LocalFSBlobAdapter`, but for `list_blobs`,
-- which Listing has. A call that runs in a thread is one step of the disk.
use lbpr.Prelude.{
  ℕ, suc, ◌*◌, String, Bool, true, false, not, ◌&&◌, Option, none, some, List, [], ◌∷◌, ◌++◌,
  length, drop, if◌then◌else◌,
}
use lbpr.Prelude.Int.{ℤ, pos, negsuc}
use lbpr.Blob.Contracts.{
  Bytes, BlobRef, PutBlobRequest, PutBlobResult, GetBlobRequest, HeadBlobResult, DeleteBlobRequest,
  DeleteBlobResult, Result, ok, err, validation, conflict, not_found, os_error,
}
use lbpr.Blob.Files.{Files}
use lbpr.Blob.Paths.{path_for}
use lbpr.Blob.Reader.{remaining_of, reader}

unfoldable pub concat : List Bytes → Bytes
concat [] = []
concat (b ∷ bs) = b ++ concat bs

-- what `write_sync` writes, none where it raises
abbrev pub content_of : Option Bytes → Option (List Bytes) → Option Bytes
content_of (some b) chunks = some b
content_of none (some chunks) = some (concat chunks)
content_of none none = none

-- `range_start or 0`, and the position that `seek` takes
abbrev pub start_of : Option ℤ → Option ℕ
start_of none = some 0
start_of (some (pos n)) = some n
start_of (some (negsuc n)) = none

abbrev pub chunk_bytes : ℕ
chunk_bytes = 64 * 1024

abbrev pub read_from : ℕ → Option ℕ → Option ℤ → Option Bytes → Result (List Bytes)
read_from chunk_size start last none = err os_error
read_from chunk_size none last (some bytes) = err os_error
read_from chunk_size (some start) last (some bytes) =
    ok (reader (suc (length bytes)) chunk_size (remaining_of last start) (drop start bytes))

abbrev pub sized : BlobRef → Option ℕ → Result HeadBlobResult
sized ref none = err os_error
sized ref (some size) = ok (record {
  ref = ref;
  blob_meta = record { size = some size; content_type = none; sha256 = none };
})

abbrev pub removed : {S : Type 0} → BlobRef → Bool × S → Result DeleteBlobResult × S
removed ref (true, s) = (ok (record { ref = ref; deleted = true }), s)
removed ref (false, s) = (err os_error, s)

module _ {S FilePath : Type 0} (files : Files S FilePath) (sha256 : Bytes → String)
    (root : FilePath) where
  abbrev pub put_result : PutBlobRequest → Bytes → PutBlobResult
  put_result req bytes = record {
    ref = req.ref;
    blob_meta = record {
      size = some (length bytes);
      content_type = req.content_type;
      sha256 = if req.compute_sha256 then some (sha256 bytes) else none;
    };
  }

  abbrev pub closed : PutBlobRequest → Bytes → Bool × S → Result PutBlobResult × S
  closed req bytes (true, s) = (ok (put_result req bytes), s)
  closed req bytes (false, s) = (err os_error, s)

  abbrev pub closed_empty : Bool × S → Result PutBlobResult × S
  closed_empty (true, s) = (err validation, s)
  closed_empty (false, s) = (err os_error, s)

  -- `write_sync`, which opens the file before it looks for the content
  unfoldable pub write_sync :
      PutBlobRequest → FilePath → Option Bytes → S → Result PutBlobResult × S
  write_sync req path (some bytes) s = closed req bytes (files.write path bytes s)
  write_sync req path none s = closed_empty (files.write path [] s)

  abbrev pub put_in : PutBlobRequest → FilePath → Bool × S → Result PutBlobResult × S
  put_in req path (false, s) = (err os_error, s)
  put_in req path (true, s) =
      if files.exists path s && not req.overwrite
      then (err conflict, s)
      else write_sync req path (content_of req.content req.chunks) s

  abbrev pub put_at : PutBlobRequest → Result FilePath → S → Result PutBlobResult × S
  put_at req (err e) s = (err e, s)
  put_at req (ok path) s = put_in req path (files.make_parents path s)

  unfoldable pub put_blob : PutBlobRequest → S → Result PutBlobResult × S
  unfolding write_sync path_for concat
  put_blob req s = put_at req (path_for files root req.ref) s

  abbrev pub get_at : GetBlobRequest → ℕ → Result FilePath → S → Result (List Bytes)
  get_at req chunk_size (err e) s = err e
  get_at req chunk_size (ok path) s =
      if files.exists path s
      then read_from chunk_size (start_of req.range_start) req.range_end (files.read path s)
      else err not_found

  -- the chunks that the stream yields
  unfoldable pub get_blob_stream_by : ℕ → GetBlobRequest → S → Result (List Bytes)
  unfolding path_for reader remaining_of
  get_blob_stream_by chunk_size req s = get_at req chunk_size (path_for files root req.ref) s

  unfoldable pub get_blob_stream : GetBlobRequest → S → Result (List Bytes)
  unfolding get_blob_stream_by
  get_blob_stream req s = get_blob_stream_by chunk_bytes req s

  abbrev pub head_at : BlobRef → Result FilePath → S → Result HeadBlobResult
  head_at ref (err e) s = err e
  head_at ref (ok path) s =
      if files.exists path s then sized ref (files.size_of path s) else err not_found

  unfoldable pub head_blob : BlobRef → S → Result HeadBlobResult
  unfolding path_for
  head_blob ref s = head_at ref (path_for files root ref) s

  abbrev pub delete_at : DeleteBlobRequest → Result FilePath → S → Result DeleteBlobResult × S
  delete_at req (err e) s = (err e, s)
  delete_at req (ok path) s =
      if files.exists path s
      then removed req.ref (files.remove path s)
      else if req.missing_ok
      then (ok (record { ref = req.ref; deleted = false }), s)
      else (err not_found, s)

  unfoldable pub delete_blob : DeleteBlobRequest → S → Result DeleteBlobResult × S
  unfolding path_for
  delete_blob req s = delete_at req (path_for files root req.ref) s
