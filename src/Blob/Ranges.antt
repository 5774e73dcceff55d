-- ===== src/Blob/Ranges.antt =====
-- What the stream of a blob yields, for every range.
use lbpr.Prelude.{
  take-drop, ℕ, zero, suc, ◌-◌, ◌≤◌, ◌<◌, ◌≡◌, refl, ap, ◌∙◌, arith, Bool-cases, inl, inr, String,
  false, Option, none, some, List, [], ◌∷◌, ◌++◌, min, length, take, drop, if◌then◌else◌,
  length-drop, All, length-take,
}
use lbpr.Blob.Contracts.{Bytes, GetBlobRequest, ok, err, not_found}
use lbpr.Blob.Files.{Files, Laws}
use lbpr.Blob.Paths.{path_for}
use lbpr.Blob.Reader.{remaining_of, reader, is_nil}
use lbpr.Blob.Adapter.{
  concat, get_blob_stream_by, get_blob_stream, get_at, read_from, start_of, chunk_bytes,
}

-- the first so many, or all
abbrev pub within : Option ℕ → Bytes → Bytes
within none bs = bs
within (some n) bs = take n bs

take-nil : (n : ℕ) → take {A = ℕ} n [] ≡ []
take-nil zero = refl
take-nil (suc n) = refl

take-take-drop :
    (m n : ℕ) (xs : Bytes)
    → m ≤ n
    → take m xs ++ take (n - length (take m xs)) (drop m xs) ≡ take n xs
take-take-drop zero n xs h = ap (λ k. take k xs) (omega arith)
take-take-drop (suc m) zero xs h = absurd (omega arith)
take-take-drop (suc m) (suc n) [] h = take-nil (suc n - 0)
take-take-drop (suc m) (suc n) (x ∷ xs) h =
    ap (λ t. x ∷ t)
      (ap (λ k. take m xs ++ take k (drop m xs)) (omega arith)
        ∙ take-take-drop m n xs (omega arith))

min-suc : (a b : ℕ) → min (suc a) (suc b) ≡ suc (min a b)
min-suc a b = omega arith

concat-reader :
    (fuel c : ℕ) (remaining : Option ℕ) (rest : Bytes)
    → length rest < fuel
    → concat (reader fuel (suc c) remaining rest) ≡ within remaining rest
unfolding reader concat
concat-reader zero c remaining rest h = absurd (omega arith)
concat-reader (suc fuel) c none [] h = refl
concat-reader (suc fuel) c none (x ∷ xs) h =
    ap (λ t. x ∷ t)
      (ap (λ t. take c xs ++ t)
          (concat-reader fuel c none (drop c xs) (omega (arith, length-drop c xs)))
        ∙ take-drop c xs)
concat-reader (suc fuel) c (some zero) rest h = refl
concat-reader (suc fuel) c (some (suc n)) [] h = rw (min-suc c n) refl
concat-reader (suc fuel) c (some (suc n)) (x ∷ xs) h =
    let m : ℕ = min c n in
    rw (min-suc c n) (
      ap (λ t. x ∷ t)
        (ap (λ t. take m xs ++ t)
            (concat-reader fuel c (some (suc n - suc (length (take m xs)))) (drop m xs)
              (omega (arith, length-drop m xs)))
          ∙ ap (λ k. take m xs ++ take k (drop m xs)) (omega arith)
          ∙ take-take-drop m n xs (omega arith)))

take-bounds :
    (k c : ℕ) (xs : Bytes)
    → k ≤ c
    → is_nil (take k xs) ≡ false
    → (0 < length (take k xs)) × (length (take k xs) ≤ c)
take-bounds zero c xs h e = cc
take-bounds (suc k) c [] h e = cc
take-bounds (suc k) c (x ∷ xs) h e = omega (arith, length-take k xs)

reader-All :
    (fuel c : ℕ) (remaining : Option ℕ) (rest : Bytes)
    → All (λ bytes. (0 < length bytes) × (length bytes ≤ c)) (reader fuel c remaining rest)
unfolding reader
reader-All zero c remaining rest = tt
reader-All (suc fuel) c none rest = elim (Bool-cases (is_nil (take c rest))) [
  | inl nil ↦ rw nil tt
  | inr more ↦
      rw more (take-bounds c c rest (omega arith) more, reader-All fuel c none (drop c rest))
]
reader-All (suc fuel) c (some zero) rest = tt
reader-All (suc fuel) c (some (suc n)) rest =
    let k : ℕ = min c (suc n) in
    elim (Bool-cases (is_nil (take k rest))) [
      | inl nil ↦ rw nil tt
      | inr more ↦ rw more (
        take-bounds k c rest (omega arith) more,
        reader-All fuel c (some (suc n - length (take k rest))) (drop k rest),
      )
    ]

module _ {S FilePath : Type 0} (files : Files S FilePath) (laws : Laws files)
    (sha256 : Bytes → String) (root : FilePath) where
  stream_by :
      (chunk_size : ℕ) (req : GetBlobRequest) (s : S) (path : FilePath) (start : ℕ) (bytes : Bytes)
      → path_for files root req.ref ≡ ok path
      → files.read path s ≡ some bytes
      → start_of req.range_start ≡ some start
      → 0 < chunk_size
      → (chunks : List Bytes) × (get_blob_stream_by files sha256 root chunk_size req s ≡ ok chunks)
        × (concat chunks ≡ within (remaining_of req.range_end start) (drop start bytes))
        × All (λ c. (0 < length c) × (length c ≤ chunk_size)) chunks
  unfolding get_blob_stream_by
  stream_by zero req s path start bytes at_path content from positive = absurd (omega arith)
  stream_by (suc c) req s path start bytes at_path content from positive = (
    reader (suc (length bytes)) (suc c) (remaining_of req.range_end start) (drop start bytes),
    ap (λ p. get_at files sha256 root req (suc c) p s) at_path
        ∙ ap
            (λ b.
              if b
              then read_from (suc c) (start_of req.range_start) req.range_end (files.read path s)
              else err not_found)
            (laws.there path s bytes content)
        ∙ ap (λ o. read_from (suc c) (start_of req.range_start) req.range_end o) content
        ∙ ap (λ o. read_from (suc c) o req.range_end (some bytes)) from,
    concat-reader (suc (length bytes)) c (remaining_of req.range_end start) (drop start bytes)
        (omega (arith, length-drop start bytes)),
    reader-All (suc (length bytes)) (suc c) (remaining_of req.range_end start) (drop start bytes),
  )

  -- The stream of a blob that is there ends, in chunks that hold a byte at least and 64 KiB at most,
  -- which together are the bytes of the blob from the start of the range through its end.
  pub get_blob_stream_range :
      (req : GetBlobRequest) (s : S) (path : FilePath) (start : ℕ) (bytes : Bytes)
      → path_for files root req.ref ≡ ok path
      → files.read path s ≡ some bytes
      → start_of req.range_start ≡ some start
      → (chunks : List Bytes) × (get_blob_stream files sha256 root req s ≡ ok chunks)
        × (concat chunks ≡ within (remaining_of req.range_end start) (drop start bytes))
        × All (λ c. (0 < length c) × (length c ≤ chunk_bytes)) chunks
  unfolding get_blob_stream
  get_blob_stream_range req s path start bytes at_path content from =
      stream_by chunk_bytes req s path start bytes at_path content from (omega arith)
