-- ===== src/Blob/Listing.antt =====
-- components/blobstorageadapter/adapters/local_fs.py: `list_blobs`. The walk of a directory gives
-- the paths of its files from there with their sizes.
use lbpr.Prelude.{ℕ, suc, String, Option, none, some, List, [], ◌∷◌, str_eq, leb, if◌then◌else◌}
use lbpr.Text.Find.{starts_with}
use lbpr.Text.Strip.{strip}
use lbpr.Blob.Contracts.{ListBlobsRequest, ListBlobsResult, BlobItem, Result, ok, err}
use lbpr.Blob.Files.{Files}
use lbpr.Blob.Paths.{is_slash, safe_join}

abbrev pub item_of : String × ℕ → BlobItem
item_of (rel, size) = record { key = rel; size = size }

-- `iter_files`; every path starts with the empty prefix
unfoldable pub iter_files : String → List (String × ℕ) → List (String × ℕ)
unfolding starts_with
iter_files prefix [] = []
iter_files prefix ((rel, size) ∷ files) =
    let rest : List (String × ℕ) = iter_files prefix files in
    if starts_with prefix rel then (rel, size) ∷ rest else rest

abbrev pub with_item : BlobItem → List BlobItem × Option String → List BlobItem × Option String
with_item item (items, next_cursor) = (item ∷ items, next_cursor)

-- the files up to the cursor are passed over, itself too
unfoldable pub pass_over : String → List (String × ℕ) → List (String × ℕ)
pass_over cursor [] = []
pass_over cursor ((rel, size) ∷ files) =
    let rest : List (String × ℕ) = pass_over cursor files in
    if str_eq rel cursor then files else rest

-- the loop once the cursor was seen, after `count` items
unfoldable pub collect : ℕ → ℕ → List (String × ℕ) → List BlobItem × Option String
collect limit count [] = ([], none)
collect limit count ((rel, size) ∷ files) =
    let rest : List BlobItem × Option String =
      with_item (item_of (rel, size)) (collect limit (suc count) files) in
    if leb limit (suc count) then (item_of (rel, size) ∷ [], some rel) else rest

abbrev pub after_cursor : Option String → List (String × ℕ) → List (String × ℕ)
after_cursor none files = files
after_cursor (some cursor) files = pass_over cursor files

-- the whole loop
unfoldable pub page : ℕ → Option String → List (String × ℕ) → List BlobItem × Option String
unfolding collect pass_over
page limit cursor files = collect limit 0 (after_cursor cursor files)

abbrev pub result_of : ListBlobsRequest → List BlobItem × Option String → ListBlobsResult
result_of req (items, next_cursor) = record {
  tenant_id = req.tenant_id;
  bucket = req.bucket;
  items = items;
  next_cursor = next_cursor;
}

module _ {S FilePath : Type 0} (files : Files S FilePath) (root : FilePath) where
  abbrev pub list_at : ListBlobsRequest → Result FilePath → S → Result ListBlobsResult
  list_at req (err e) s = err e
  list_at req (ok base) s =
      if files.exists base s
      then ok (
          result_of req (
            page req.limit req.cursor (iter_files (strip is_slash req.prefix) (files.walk base s))))
      else ok (result_of req ([], none))

  unfoldable pub list_blobs : ListBlobsRequest → S → Result ListBlobsResult
  unfolding page iter_files safe_join strip
  list_blobs req s = list_at req (safe_join files root (req.tenant_id ∷ req.bucket ∷ [])) s
