-- ===== src/Blob/Paths.antt =====
-- components/blobstorageadapter/adapters/local_fs.py: `_safe_join` and `_path_for`.
use lbpr.Prelude.{ℕ, String, Bool, ◌||◌, List, [], ◌∷◌, ◌==◌, if◌then◌else◌}
use lbpr.Text.Find.{has_text}
use lbpr.Text.Strip.{strip}
use lbpr.Blob.Contracts.{BlobRef, Result, ok, err, validation}
use lbpr.Blob.Files.{Files}

-- a slash or a backslash
abbrev pub is_slash : ℕ → Bool
is_slash c = c == 47 || c == 92

module _ {S FilePath : Type 0} where
  unfoldable pub join_parts : Files S FilePath → FilePath → List String → Result FilePath
  unfolding strip has_text
  join_parts files p [] = ok p
  join_parts files p (part ∷ parts) =
      let rest : Result FilePath = join_parts files (files.join p (strip is_slash part)) parts in
      if has_text ".." (strip is_slash part) then err validation else rest

  abbrev pub resolved : Files S FilePath → Result FilePath → Result FilePath
  resolved files (ok p) = ok (files.resolve p)
  resolved files (err e) = err e

  unfoldable pub safe_join : Files S FilePath → FilePath → List String → Result FilePath
  unfolding join_parts
  safe_join files root parts = resolved files (join_parts files root parts)

  unfoldable pub path_for : Files S FilePath → FilePath → BlobRef → Result FilePath
  unfolding safe_join
  path_for files root ref = safe_join files root (ref.tenant_id ∷ ref.bucket ∷ ref.key ∷ [])
