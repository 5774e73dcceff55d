-- ===== src/Text/Strip.antt =====
-- Python's `s.strip(chars)`, the characters by a test of their codes.
use Prim.Native.Char.{code}
use lbpr.Prelude.{ℕ, String, Bool, true, false, ◌&&◌, if◌then◌else◌}

unfoldable pub lstrip : (ℕ → Bool) → String → String
lstrip drops String.[] = String.[]
lstrip drops (String.◌∷◌ c s) =
    let rest : String = lstrip drops s in if drops (code c) then rest else String.◌∷◌ c s

unfoldable pub no_text : String → Bool
no_text String.[] = true
no_text (String.◌∷◌ c s) = false

unfoldable pub rstrip_any : (ℕ → Bool) → String → String
unfolding no_text
rstrip_any drops String.[] = String.[]
rstrip_any drops (String.◌∷◌ c s) =
    let rest : String = rstrip_any drops s in
    if no_text rest && drops (code c) then String.[] else String.◌∷◌ c rest

unfoldable pub strip : (ℕ → Bool) → String → String
unfolding lstrip rstrip_any
strip drops s = rstrip_any drops (lstrip drops s)
