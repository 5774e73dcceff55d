-- ===== src/Blob/RoundTrip.antt =====
-- What was put is what is read.
use lbpr.Prelude.{
  zero, suc, ◌+◌, ◌-◌, take, arith, ◌∷◌, ℕ, ◌≡◌, ◌≢◌, refl, ap, ◌∙◌, String, Bool, true, false, not,
  ◌&&◌, Option, none, some, List, [], length, drop, if◌then◌else◌, Bool-cases, inl, inr,
}
use lbpr.Prelude.Int.{ℤ, pos, negsuc}
use lbpr.Blob.Contracts.{Bytes, PutBlobRequest, PutBlobResult, Result, ok, err, not_found}
use lbpr.Blob.Files.{Files, Laws}
use lbpr.Blob.Paths.{path_for}
use lbpr.Blob.Reader.{remaining_of}
use lbpr.Blob.Adapter.{
  concat, content_of, put_blob, put_at, put_in, put_result, write_sync, closed, closed_empty,
  get_blob_stream, head_blob, head_at, start_of, sized,
}
use lbpr.Blob.Ranges.{within, get_blob_stream_range}

-- the bytes from a start through an end, both counted from 0
abbrev pub range_of : Option ℤ → ℕ → Bytes → Bytes
range_of none start bytes = drop start bytes
range_of (some (pos last)) start bytes = drop start (take (last + 1) bytes)
range_of (some (negsuc n)) start bytes = []

take-empty : (n : ℕ) → take {A = ℕ} n [] ≡ []
take-empty zero = refl
take-empty (suc n) = refl

drop-empty : (n : ℕ) → drop {A = ℕ} n [] ≡ []
drop-empty zero = refl
drop-empty (suc n) = refl

take-drop_comm :
    (n start : ℕ) (bytes : Bytes) → take (n - start) (drop start bytes) ≡ drop start (take n bytes)
take-drop_comm n zero bytes = ap (λ k. take k bytes) (omega arith)
take-drop_comm zero (suc start) bytes = ap (λ k. take k (drop (suc start) bytes)) zero_less
  where
    zero_less : 0 - suc start ≡ 0
    zero_less = omega arith
take-drop_comm (suc n) (suc start) [] = take-empty (suc n - suc start)
take-drop_comm (suc n) (suc start) (b ∷ bytes) =
    let less : suc n - suc start ≡ n - start = omega arith in rw less (take-drop_comm n start bytes)

within-range_of :
    (range_end : Option ℤ) (start : ℕ) (bytes : Bytes)
    → within (remaining_of range_end start) (drop start bytes) ≡ range_of range_end start bytes
unfolding remaining_of
within-range_of none start bytes = refl
within-range_of (some (pos last)) start bytes = take-drop_comm (last + 1) start bytes
within-range_of (some (negsuc n)) start bytes = refl

module _ {S FilePath : Type 0} (files : Files S FilePath) (sha256 : Bytes → String)
    (root : FilePath) where
  -- what a put that succeeded went through
  record Stored (req : PutBlobRequest) (path : FilePath) (res : PutBlobResult) (s s' : S)
      : Type 0 where
    bytes : Bytes
    content : content_of req.content req.chunks ≡ some bytes
    result : res ≡ put_result files sha256 root req bytes
    after : s' ≡ (files.write path bytes s).1
    wrote : (files.write path bytes s).0 ≡ true

  closed-Stored :
      (req : PutBlobRequest) (b : Bytes) (w : Bool × S) (res : PutBlobResult) (s' : S)
      → closed files sha256 root req b w ≡ (ok res, s')
      → (res ≡ put_result files sha256 root req b) × (s' ≡ w.1) × (w.0 ≡ true)
  closed-Stored req b (true, s) res s' h = (cc, cc, refl)
  closed-Stored req b (false, s) res s' h = cc

  closed_empty-ne-ok :
      (w : Bool × S) (res : PutBlobResult) (s' : S)
      → closed_empty files sha256 root w ≢ (ok res, s')
  closed_empty-ne-ok (true, s) res s' h = cc
  closed_empty-ne-ok (false, s) res s' h = cc

  write_sync-Stored :
      (req : PutBlobRequest) (p : FilePath) (content : Option Bytes) (s : S) (res : PutBlobResult)
      (s' : S)
      → content_of req.content req.chunks ≡ content
      → write_sync files sha256 root req p content s ≡ (ok res, s')
      → Stored req p res s s'
  unfolding write_sync
  write_sync-Stored req p none s res s' e h =
      absurd (closed_empty-ne-ok (files.write p [] s) res s' h)
  write_sync-Stored req p (some b) s res s' e h =
      let (result, after, wrote) = closed-Stored req b (files.write p b s) res s' h in
      record { bytes = b; content = e; result = result; after = after; wrote = wrote }

  put_in-Stored :
      (req : PutBlobRequest) (p : FilePath) (m : Bool × S) (res : PutBlobResult) (s' : S)
      → put_in files sha256 root req p m ≡ (ok res, s')
      → Stored req p res m.1 s'
  put_in-Stored req p (false, s) res s' h = cc
  put_in-Stored req p (true, s) res s' h =
      elim (Bool-cases (files.exists p s && not req.overwrite)) [
        | inl taken ↦ let k = rw taken at h in cc
        | inr free ↦
            write_sync-Stored req p (content_of req.content req.chunks) s res s' refl (rw free at h)
      ]

  put_at-Stored :
      (req : PutBlobRequest) (r : Result FilePath) (s : S) (res : PutBlobResult) (s' : S)
      → put_at files sha256 root req r s ≡ (ok res, s')
      → (p : FilePath) × (r ≡ ok p) × Stored req p res (files.make_parents p s).1 s'
  put_at-Stored req (err e) s res s' h = cc
  put_at-Stored req (ok p) s res s' h =
      (p, refl, put_in-Stored req p (files.make_parents p s) res s' h)

  -- After a put that succeeded, whether of one piece or of chunks, its result and the head of the
  -- blob show the size of what was put, and the stream of every range yields those bytes of it.
  pub get_blob_stream-put_blob :
      Laws files
      → (req : PutBlobRequest) (s : S) (res : PutBlobResult) (s' : S)
      → put_blob files sha256 root req s ≡ (ok res, s')
      → (bytes : Bytes) × (content_of req.content req.chunks ≡ some bytes)
        × (res.blob_meta.size ≡ some (length bytes))
        × (head_blob files sha256 root req.ref s' ≡ sized req.ref (some (length bytes)))
        × ((range_start range_end : Option ℤ) (start : ℕ)
            → start_of range_start ≡ some start
            → (chunks : List Bytes) × (get_blob_stream files sha256 root
                  (record { ref = req.ref; range_start = range_start; range_end = range_end })
                  s'
                ≡ ok chunks)
              × (concat chunks ≡ range_of range_end start bytes))
  unfolding put_blob head_blob
  get_blob_stream-put_blob laws req s res s' h =
      let (p, at_path, stored) = put_at-Stored req (path_for files root req.ref) s res s' h in
      let bytes : Bytes = stored.bytes in
      let found : files.read p s' ≡ some bytes =
        ap (files.read p) stored.after
        ∙ laws.written p p bytes (files.make_parents p s).1 stored.wrote
        ∙ ap (λ b. if b then some bytes else files.read p (files.make_parents p s).1)
            (laws.itself p) in
      (
        bytes,
        stored.content,
        ap (λ r. r.blob_meta.size) stored.result,
        ap (λ o. head_at files sha256 root req.ref o s') at_path
            ∙ ap (λ b. if b then sized req.ref (files.size_of p s') else err not_found)
                (laws.there p s' bytes found)
            ∙ ap (sized req.ref) (laws.measured p s' bytes found),
        λ range_start range_end start from.
            let (chunks, streamed, whole, sizes) =
              get_blob_stream_range files laws sha256 root
                (record { ref = req.ref; range_start = range_start; range_end = range_end }) s' p
                start bytes at_path found from in
            (chunks, streamed, whole ∙ within-range_of range_end start bytes),
      )
