-- ===== src/Blob/Following.antt =====
-- A client that follows `next_cursor` sees every blob.
use lbpr.Prelude.{
  ℕ, zero, suc, ◌≤◌, ◌<◌, ◌≡◌, ◌≢◌, refl, ap, ◌∙◌, arith, String, true, inl, inr, Option, none,
  some, List, [], ◌∷◌, map, length, All, Bool-cases,
}
use lbpr.Text.Find.{starts_with}
use lbpr.Text.Strip.{strip}
use lbpr.Blob.Contracts.{ListBlobsRequest, ListBlobsResult, BlobItem, Result, ok, err}
use lbpr.Blob.Files.{Files}
use lbpr.Blob.Paths.{safe_join, is_slash}
use lbpr.Blob.Pages.{Distinct, append_later, go_on, visits, visits-rest}
use lbpr.Blob.Listing.{item_of, iter_files, page, list_blobs}

All-iter_files :
    (P : String × ℕ → Type 0) (prefix : String) (files : List (String × ℕ))
    → All P files
    → All P (iter_files prefix files)
unfolding iter_files
All-iter_files P prefix [] h = tt
All-iter_files P prefix (f ∷ files) h = elim (Bool-cases (starts_with prefix f.0)) [
  | inl kept ↦ rw kept (h.0, All-iter_files P prefix files h.1)
  | inr left ↦ rw left (All-iter_files P prefix files h.1)
]

iter_files-Distinct :
    (prefix : String) (files : List (String × ℕ))
    → Distinct files
    → Distinct (iter_files prefix files)
unfolding iter_files
iter_files-Distinct prefix [] h = tt
iter_files-Distinct prefix (f ∷ files) h = elim (Bool-cases (starts_with prefix f.0)) [
  | inl kept ↦
      rw kept
        (All-iter_files (λ g. f.0 ≢ g.0) prefix files h.0, iter_files-Distinct prefix files h.1)
  | inr left ↦ rw left (iter_files-Distinct prefix files h.1)
]

length-iter_files :
    (prefix : String) (files : List (String × ℕ)) → length (iter_files prefix files) ≤ length files
unfolding iter_files
length-iter_files prefix [] = omega arith
length-iter_files prefix (f ∷ files) = ground (arith, length-iter_files prefix files)

abbrev continue_with :
    Result ListBlobsResult → (String → Option (List BlobItem)) → Option (List BlobItem)
continue_with (err e) more = none
continue_with (ok r) more = go_on (r.items, r.next_cursor) more

go_on-congr :
    (r : List BlobItem × Option String) (more more' : String → Option (List BlobItem))
    → ((c : String) → more c ≡ more' c)
    → go_on r more ≡ go_on r more'
go_on-congr (items, none) more more' h = refl
go_on-congr (items, some c) more more' h = ap (append_later items) (h c)

module _ {S FilePath : Type 0} (files : Files S FilePath) (root : FilePath) where
  -- a client that asks for page after page until there is no cursor; none where a call fails or
  -- the fuel runs out
  pub follow : ℕ → ListBlobsRequest → S → Option (List BlobItem)
  follow zero req s = none
  follow (suc fuel) req s =
      continue_with (list_blobs files root req s)
        (λ c. follow fuel (record req { cursor = some c }) s)

  follow-visits :
      (fuel : ℕ) (req : ListBlobsRequest) (cursor : Option String) (s : S) (base : FilePath)
      → safe_join files root (req.tenant_id ∷ req.bucket ∷ []) ≡ ok base
      → files.exists base s ≡ true
      → follow fuel (record req { cursor = cursor }) s
        ≡ visits fuel req.limit cursor (iter_files (strip is_slash req.prefix) (files.walk base s))
  unfolding follow visits list_blobs
  follow-visits zero req cursor s base at_base there = refl
  follow-visits (suc fuel) req cursor s base at_base there = rw at_base (
      rw there (
        go_on-congr
          (page req.limit cursor (iter_files (strip is_slash req.prefix) (files.walk base s)))
          (λ c. follow fuel (record req { cursor = some c }) s)
          (λ c.
            visits fuel req.limit (some c)
              (iter_files (strip is_slash req.prefix) (files.walk base s)))
          (λ c. follow-visits fuel req (some c) s base at_base there)))

  -- Whatever the limit, a client that asks with no cursor and then with each cursor that it is
  -- given is done after at most one page more than there are files, and has then seen every file
  -- of the bucket with the prefix once, in the order of the walk, if nothing changes meanwhile.
  pub follow_sees_all :
      (req : ListBlobsRequest) (s : S) (base : FilePath) (fuel : ℕ)
      → safe_join files root (req.tenant_id ∷ req.bucket ∷ []) ≡ ok base
      → files.exists base s ≡ true
      → Distinct (files.walk base s)
      → length (files.walk base s) < fuel
      → follow fuel (record req { cursor = none }) s
        ≡ some (map item_of (iter_files (strip is_slash req.prefix) (files.walk base s)))
  follow_sees_all req s base fuel at_base there distinct enough =
      let found : List (String × ℕ) = iter_files (strip is_slash req.prefix) (files.walk base s) in
      follow-visits fuel req none s base at_base there
      ∙ visits-rest fuel req.limit none found [] found
          (iter_files-Distinct (strip is_slash req.prefix) (files.walk base s) distinct) refl refl
          (omega (arith, length-iter_files (strip is_slash req.prefix) (files.walk base s)))
