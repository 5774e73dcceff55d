-- ===== src/Text/Parts.antt =====
-- Python's `s.split(c)` for a separator of one character, and membership of a character.
use Prim.Native.Char.{code, Char}
use Prim.Native.String.{◌++◌ as join_text}
use text.Mathlib.TextEquality.{Char-path}
use text.Mathlib.TextLemmas.{nil-append, cons-append}
use lbpr.Prelude.{
  ℕ, suc, ◌+◌, String, ◌≡◌, refl, ap, sym, ◌∙◌, Bool, true, false, ◌||◌, List, [], ◌∷◌, ◌==◌,
  length, arith, if◌then◌else◌, Bool-cases, inl, inr,
}

==→eq : (a b : ℕ) → (a == b) ≡ true → a ≡ b
==→eq a b h = ground arith

-- a character put before the first part
unfoldable pub before : Char → List String → List String
before x [] = String.◌∷◌ x String.[] ∷ []
before x (w ∷ ws) = String.◌∷◌ x w ∷ ws

-- `s.split(c)`, the separator by its code
unfoldable pub split_on : ℕ → String → List String
unfolding before
split_on c String.[] = "" ∷ []
split_on c (String.◌∷◌ x s) =
    let rest : List String = split_on c s in if code x == c then "" ∷ rest else before x rest

unfoldable pub has_char : ℕ → String → Bool
has_char c String.[] = false
has_char c (String.◌∷◌ x s) = code x == c || has_char c s

pub before-cons :
    (x : Char) (a s : String) (ws : List String)
    → before x (join_text a s ∷ ws) ≡ join_text (String.◌∷◌ x a) s ∷ ws
unfolding before
before-cons x a s ws = rw (cons-append x a s) refl

-- The text before the first separator is the first part.
pub split_on-append :
    (c : ℕ) (x : Char) (a s : String)
    → code x ≡ c
    → has_char c a ≡ false
    → split_on c (join_text a (String.◌∷◌ x s)) ≡ a ∷ split_on c s
unfolding split_on has_char before
split_on-append c x String.[] s e h = rw (nil-append (String.◌∷◌ x s)) (ground arith)
split_on-append c x (String.◌∷◌ y a) s e h =
    rw (cons-append y a (String.◌∷◌ x s)) (ground (arith, split_on-append c x a s))

pub split_on-none : (c : ℕ) (a : String) → has_char c a ≡ false → split_on c a ≡ a ∷ []
unfolding split_on has_char before
split_on-none c String.[] h = refl
split_on-none c (String.◌∷◌ y a) h = ground (arith, split_on-none c a)

-- Every separator makes one part more.
unfoldable pub count_char : ℕ → String → ℕ
count_char c String.[] = 0
count_char c (String.◌∷◌ x s) = (if code x == c then 1 else 0) + count_char c s

length-before :
    (x : Char) (ws : List String) (n : ℕ) → length ws ≡ suc n → length (before x ws) ≡ suc n
unfolding before
length-before x [] n h = cc
length-before x (w ∷ ws) n h = h

pub length-split_on : (c : ℕ) (s : String) → length (split_on c s) ≡ suc (count_char c s)
unfolding split_on count_char
length-split_on c String.[] = refl
length-split_on c (String.◌∷◌ x s) =
    ground (arith, length-split_on c s, length-before x (split_on c s) (count_char c s))

pub count_char-append :
    (c : ℕ) (a s : String) → count_char c (join_text a s) ≡ count_char c a + count_char c s
unfolding count_char
count_char-append c String.[] s = rw (nil-append s) (omega arith)
count_char-append c (String.◌∷◌ x a) s =
    rw (cons-append x a s) (omega (arith, count_char-append c a s))

pub count_char-has_char :
    (c : ℕ) (a : String) → has_char c a ≡ (if count_char c a == 0 then false else true)
unfolding count_char has_char
count_char-has_char c String.[] = refl
count_char-has_char c (String.◌∷◌ x a) = ground (arith, count_char-has_char c a)

-- `c.join(parts)` for parts that `split_on` has made
unfoldable pub join_on : Char → List String → String
join_on c [] = String.[]
join_on c (x ∷ []) = x
join_on c (x ∷ y ∷ rest) = join_text x (String.◌∷◌ c (join_on c (y ∷ rest)))

join_on-before :
    (c x : Char) (ws : List String) → join_on c (before x ws) ≡ String.◌∷◌ x (join_on c ws)
unfolding join_on before
join_on-before c x [] = refl
join_on-before c x (w ∷ []) = refl
join_on-before c x (w ∷ v ∷ ws) = cons-append x w (String.◌∷◌ c (join_on c (v ∷ ws)))

join_on-empty :
    (c : Char) (ws : List String) (n : ℕ)
    → length ws ≡ suc n
    → join_on c ("" ∷ ws) ≡ String.◌∷◌ c (join_on c ws)
unfolding join_on
join_on-empty c [] n h = cc
join_on-empty c (w ∷ ws) n h = nil-append (String.◌∷◌ c (join_on c (w ∷ ws)))

-- Joining what was split gives the text back.
pub join_on-split_on : (c : Char) (s : String) → join_on c (split_on (code c) s) ≡ s
unfolding split_on
join_on-split_on c String.[] = unfold join_on in refl
join_on-split_on c (String.◌∷◌ x s) = elim (Bool-cases (code x == code c)) [
  | inl same ↦ rw same (
      join_on-empty c (split_on (code c) s) (count_char (code c) s) (length-split_on (code c) s)
      ∙ ap (λ t. String.◌∷◌ c t) (join_on-split_on c s)
      ∙ ap (λ y. String.◌∷◌ y s) (sym (Char-path x c (==→eq (code x) (code c) same))))
  | inr other ↦
      rw other
        (join_on-before c x (split_on (code c) s) ∙ ap (λ t. String.◌∷◌ x t) (join_on-split_on c s))
]
