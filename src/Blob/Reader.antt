-- ===== src/Blob/Reader.antt =====
-- components/blobstorageadapter/adapters/local_fs.py: the generator `reader` of `get_blob_stream`
-- on the bytes from the start on. What `f.read(n)` gives of a file is its next n bytes, fewer at
-- its end. A number of bytes that remain below zero stops the loop as zero does, and is zero here.
use lbpr.Prelude.{
  ℕ, zero, suc, ◌+◌, ◌-◌, Bool, true, false, Option, none, some, List, [], ◌∷◌, min, length, take,
  drop, if◌then◌else◌,
}
use lbpr.Prelude.Int.{ℤ, pos, negsuc}
use lbpr.Blob.Contracts.{Bytes}

-- `None if end is None else (end - start + 1)`
unfoldable pub remaining_of : Option ℤ → ℕ → Option ℕ
remaining_of none start = none
remaining_of (some (pos last)) start = some (last + 1 - start)
remaining_of (some (negsuc n)) start = some 0

abbrev pub is_done : Option ℕ → Bool
is_done none = false
is_done (some zero) = true
is_done (some (suc n)) = false

abbrev pub to_read : ℕ → Option ℕ → ℕ
to_read chunk_size none = chunk_size
to_read chunk_size (some n) = min chunk_size n

abbrev pub less : Option ℕ → ℕ → Option ℕ
less none n = none
less (some r) n = some (r - n)

abbrev pub is_nil : Bytes → Bool
is_nil [] = true
is_nil (b ∷ bs) = false

-- Every round but the last reads a byte, so as many rounds as there are bytes, and one, are enough.
unfoldable pub reader : ℕ → ℕ → Option ℕ → Bytes → List Bytes
reader zero chunk_size remaining rest = []
reader (suc fuel) chunk_size remaining rest =
    let bytes : Bytes = take (to_read chunk_size remaining) rest in
    let more : List Bytes =
      reader fuel chunk_size (less remaining (length bytes))
        (drop (to_read chunk_size remaining) rest) in
    if is_done remaining then [] else if is_nil bytes then [] else bytes ∷ more
