-- ===== src/Blob/Contents.antt =====
-- The adapter as a store of blobs: what each operation answers and what the files hold after it.
use lbpr.Prelude.{
  ◌≡◌, refl, ap, ◌∙◌, String, Bool, true, false, not, ◌&&◌, Option, none, some, [], if◌then◌else◌,
  Bool-cases, inl, inr,
}
use lbpr.Blob.Contracts.{
  Bytes, BlobRef, PutBlobRequest, PutBlobResult, DeleteBlobRequest, DeleteBlobResult, Result, ok,
  err, validation, conflict, not_found,
}
use lbpr.Blob.Files.{Files, Laws}
use lbpr.Blob.Paths.{path_for}
use lbpr.Blob.Adapter.{
  content_of, put_blob, put_at, put_in, put_result, write_sync, closed, closed_empty, delete_blob,
  delete_at, removed,
}

-- what every file holds
abbrev pub Contents : Type 0 → Type 0
Contents FilePath = FilePath → Option Bytes

pub data Operation : Type 0 where
  put : PutBlobRequest → Operation
  delete : DeleteBlobRequest → Operation

pub data Answer : Type 0 where
  put_answer : Result PutBlobResult → Answer
  delete_answer : Result DeleteBlobResult → Answer

abbrev pub ref_of : Operation → BlobRef
ref_of (put req) = req.ref
ref_of (delete req) = req.ref

module _ {S FilePath : Type 0} (files : Files S FilePath) (sha256 : Bytes → String)
    (root : FilePath) where
  abbrev pub run : Operation → S → Answer × S
  run (put req) s = let (r, s') = put_blob files sha256 root req s in (put_answer r, s')
  run (delete req) s = let (r, s') = delete_blob files sha256 root req s in (delete_answer r, s')

  abbrev pub set : FilePath → Option Bytes → Contents FilePath → Contents FilePath
  set p v contents = λ q. if files.same p q then v else contents q

  abbrev pub specified_write :
      PutBlobRequest → FilePath → Option Bytes → Contents FilePath → Answer × Contents FilePath
  specified_write req p (some b) contents =
      (put_answer (ok (put_result files sha256 root req b)), set p (some b) contents)
  specified_write req p none contents = (put_answer (err validation), set p (some []) contents)

  -- What a store promises for a path that is taken or not: without leave to overwrite a put of a
  -- taken path is a conflict; a put without content is refused, but empties the blob; a deletion
  -- of what is not there succeeds where that is asked for.
  abbrev pub specified :
      FilePath → Bool → Operation → Contents FilePath → Answer × Contents FilePath
  specified p taken (put req) contents =
      if taken && not req.overwrite
      then (put_answer (err conflict), contents)
      else specified_write req p (content_of req.content req.chunks) contents
  specified p taken (delete req) contents =
      if taken
      then (delete_answer (ok (record { ref = req.ref; deleted = true })), set p none contents)
      else if req.missing_ok
      then (delete_answer (ok (record { ref = req.ref; deleted = false })), contents)
      else (delete_answer (err not_found), contents)

  -- The calls that an operation may make of the disk succeed.
  pub record NoFault (p : FilePath) (s : S) : Type 0 where
    pub parents : (files.make_parents p s).0 ≡ true
    pub write : (b : Bytes) → (files.write p b (files.make_parents p s).1).0 ≡ true
    pub remove : files.exists p s ≡ true → (files.remove p s).0 ≡ true

  -- the same answer, and the same bytes in every file
  abbrev pub Agrees : Answer × S → Answer × Contents FilePath → Type 0
  Agrees done promised =
      (done.0 ≡ promised.0) × ((q : FilePath) → files.read q done.1 ≡ promised.1 q)

  abbrev as_put : Result PutBlobResult × S → Answer × S
  as_put (r, s) = (put_answer r, s)

  abbrev as_delete : Result DeleteBlobResult × S → Answer × S
  as_delete (r, s) = (delete_answer r, s)

  closed-ok :
      (req : PutBlobRequest) (b : Bytes) (w : Bool × S)
      → w.0 ≡ true
      → closed files sha256 root req b w ≡ (ok (put_result files sha256 root req b), w.1)
  closed-ok req b (true, s) h = refl
  closed-ok req b (false, s) h = cc

  closed_empty-err :
      (w : Bool × S) → w.0 ≡ true → closed_empty files sha256 root w ≡ (err validation, w.1)
  closed_empty-err (true, s) h = refl
  closed_empty-err (false, s) h = cc

  put_in-true :
      (req : PutBlobRequest) (p : FilePath) (m : Bool × S)
      → m.0 ≡ true
      → put_in files sha256 root req p m ≡ put_in files sha256 root req p (true, m.1)
  put_in-true req p (true, s) h = refl
  put_in-true req p (false, s) h = cc

  removed-ok :
      (ref : BlobRef) (w : Bool × S)
      → w.0 ≡ true
      → removed ref w ≡ (ok (record { ref = ref; deleted = true }), w.1)
  removed-ok ref (true, s) h = refl
  removed-ok ref (false, s) h = cc

  module _ (laws : Laws files) (p : FilePath) (s : S) (no_fault : NoFault p s) where
    written_after :
        (b : Bytes) (q : FilePath)
        → files.read q (files.write p b (files.make_parents p s).1).1
          ≡ set p (some b) (λ q'. files.read q' s) q
    written_after b q =
        laws.written p q b (files.make_parents p s).1 (no_fault.write b)
        ∙ ap (λ o. if files.same p q then some b else o) (laws.parents p q s)

    write_sync-Agrees :
        (req : PutBlobRequest) (content : Option Bytes)
        → Agrees
            (as_put (write_sync files sha256 root req p content (files.make_parents p s).1))
            (specified_write req p content (λ q. files.read q s))
    unfolding write_sync
    write_sync-Agrees req (some b) =
        let w : Bool × S = files.write p b (files.make_parents p s).1 in
        let e = closed-ok req b w (no_fault.write b) in
        (ap (λ x. put_answer x.0) e, λ q. ap (λ x. files.read q x.1) e ∙ written_after b q)
    write_sync-Agrees req none =
        let w : Bool × S = files.write p [] (files.make_parents p s).1 in
        let e = closed_empty-err w (no_fault.write []) in
        (ap (λ x. put_answer x.0) e, λ q. ap (λ x. files.read q x.1) e ∙ written_after [] q)

    put_in-Agrees :
        (req : PutBlobRequest)
        → Agrees
            (as_put (put_in files sha256 root req p (true, (files.make_parents p s).1)))
            (specified p (files.exists p s) (put req) (λ q. files.read q s))
    put_in-Agrees req =
        rw (laws.parents_exist p s) (elim (Bool-cases (files.exists p s && not req.overwrite)) [
          | inl taken ↦ rw taken (refl, λ q. laws.parents p q s)
          | inr free ↦ rw free (write_sync-Agrees req (content_of req.content req.chunks))
        ])

    delete_at-Agrees :
        (req : DeleteBlobRequest)
        → Agrees
            (as_delete (delete_at files sha256 root req (ok p) s))
            (specified p (files.exists p s) (delete req) (λ q. files.read q s))
    delete_at-Agrees req = elim (Bool-cases (files.exists p s)) [
      | inl there ↦
          let e = removed-ok req.ref (files.remove p s) (no_fault.remove there) in
          rw there (
            ap (λ x. delete_answer x.0) e,
            λ q. ap (λ x. files.read q x.1) e ∙ laws.removed p q s (no_fault.remove there),
          )
      | inr absent ↦ rw absent (elim (Bool-cases req.missing_ok) [
        | inl fine ↦ rw fine (refl, λ q. refl)
        | inr strict ↦ rw strict (refl, λ q. refl)
      ])
    ]

    -- On a disk that does not fail, a put and a deletion answer what a store of blobs promises,
    -- and leave every file as it promises: overwriting, conflicts and missing blobs included.
    pub run-Agrees :
        (op : Operation)
        → path_for files root (ref_of op) ≡ ok p
        → Agrees (run op s) (specified p (files.exists p s) op (λ q. files.read q s))
    unfolding put_blob delete_blob
    run-Agrees (put req) at_path =
        let e =
          ap (λ o. put_at files sha256 root req o s) at_path
          ∙ put_in-true req p (files.make_parents p s) no_fault.parents in
        let agrees = put_in-Agrees req in
        (ap (λ x. put_answer x.0) e ∙ agrees.0, λ q. ap (λ x. files.read q x.1) e ∙ agrees.1 q)
    run-Agrees (delete req) at_path =
        let e = ap (λ o. delete_at files sha256 root req o s) at_path in
        let agrees = delete_at-Agrees req in
        (ap (λ x. delete_answer x.0) e ∙ agrees.0, λ q. ap (λ x. files.read q x.1) e ∙ agrees.1 q)
