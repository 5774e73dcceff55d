-- ===== src/Text.antt =====
-- Python's text methods that several components call: `str.split()`, `" ".join`, and the characters
-- that they take for white space.
pub mod Parts
pub mod Find
pub mod Slice
pub mod Strip
use Prim.Native.Char.{code, Char}
use Prim.Native.String.{◌++◌ as join_text}
use lbpr.Prelude.{
  ℕ, String, Bool, true, false, ◌&&◌, ◌||◌, not, List, [], ◌∷◌, leb, ◌==◌, if◌then◌else◌,
}

unfoldable pub is_space : ℕ → Bool
is_space c =
    (leb 9 c && leb c 13)
    || (leb 28 c && leb c 32)
    || c == 133
    || c == 160
    || c == 5760
    || (leb 8192 c && leb c 8202)
    || c == 8232
    || c == 8233
    || c == 8239
    || c == 8287
    || c == 12288

-- whether a text starts with a word
unfoldable pub starts_word : String → Bool
unfolding is_space
starts_word String.[] = false
starts_word (String.◌∷◌ c s) = not (is_space (code c))

-- a character before the words of the rest, to the first of them or as a word of its own
unfoldable pub attach : Char → Bool → List String → List String
attach c true (w ∷ ws) = String.◌∷◌ c w ∷ ws
attach c true [] = String.◌∷◌ c String.[] ∷ []
attach c false ws = String.◌∷◌ c String.[] ∷ ws

unfoldable pub split : String → List String
unfolding is_space starts_word attach
split String.[] = []
split (String.◌∷◌ c s) =
    let rest : List String = split s in
    if is_space (code c) then rest else attach c (starts_word s) rest

unfoldable pub join : String → List String → String
join sep [] = ""
join sep (x ∷ []) = x
join sep (x ∷ y ∷ rest) = join_text x (join_text sep (join sep (y ∷ rest)))
