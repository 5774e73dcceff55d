-- ===== src/Blob/Files.antt =====
-- What the adapter uses of the operating system and of pathlib, as an interface: the paths, the
-- files on a disk in state `S`, and what their documentation says of them. A call that may fail
-- says whether it did, and what the disk is like then.
use lbpr.Prelude.{ℕ, String, Bool, true, Option, none, some, List, length, ◌≡◌, if◌then◌else◌}
use lbpr.Blob.Contracts.{Bytes}

pub record Files (S FilePath : Type 0) : Type 0 where
  pub join : FilePath → String → FilePath
  pub resolve : FilePath → FilePath
  pub same : FilePath → FilePath → Bool
  pub exists : FilePath → S → Bool
  pub make_parents : FilePath → S → Bool × S
  -- open for writing, which empties the file, write and close
  pub write : FilePath → Bytes → S → Bool × S
  pub read : FilePath → S → Option Bytes
  -- `os.stat(p).st_size`, which a directory has, too
  pub size_of : FilePath → S → Option ℕ
  pub remove : FilePath → S → Bool × S
  -- the files under a directory, by their paths from there, in the order of `os.walk`
  pub walk : FilePath → S → List (String × ℕ)

pub record Laws {S FilePath : Type 0} (files : Files S FilePath) : Type 0 where
  pub parents : (p q : FilePath) (s : S) → files.read q (files.make_parents p s).1 ≡ files.read q s
  pub parents_exist :
      (p : FilePath) (s : S) → files.exists p (files.make_parents p s).1 ≡ files.exists p s
  pub written :
      (p q : FilePath) (b : Bytes) (s : S)
      → (files.write p b s).0 ≡ true
      → files.read q (files.write p b s).1 ≡ (if files.same p q then some b else files.read q s)
  pub removed :
      (p q : FilePath) (s : S)
      → (files.remove p s).0 ≡ true
      → files.read q (files.remove p s).1 ≡ (if files.same p q then none else files.read q s)
  pub measured :
      (p : FilePath) (s : S) (b : Bytes)
      → files.read p s ≡ some b
      → files.size_of p s ≡ some (length b)
  pub there : (p : FilePath) (s : S) (b : Bytes) → files.read p s ≡ some b → files.exists p s ≡ true
  pub itself : (p : FilePath) → files.same p p ≡ true
