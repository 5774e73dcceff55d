-- ===== src/Text/Slice.antt =====
-- Python's slices of texts, `s[:n]` and `s[n:]`.
use Prim.Native.String.{◌++◌ as join_text, count}
use text.Mathlib.TextLemmas.{nil-append, cons-append, length-nil, length-cons}
use lbpr.Prelude.{ℕ, zero, suc, ◌+◌, ◌-◌, ◌≡◌, refl, ap, sym, ◌∙◌, arith, String, min}

unfoldable pub text_take : ℕ → String → String
text_take zero s = String.[]
text_take (suc n) String.[] = String.[]
text_take (suc n) (String.◌∷◌ c s) = String.◌∷◌ c (text_take n s)

unfoldable pub text_drop : ℕ → String → String
text_drop zero s = s
text_drop (suc n) String.[] = String.[]
text_drop (suc n) (String.◌∷◌ c s) = text_drop n s

-- `s[i:j]` for i ≤ j
unfoldable pub slice : ℕ → ℕ → String → String
unfolding text_take text_drop
slice i j s = text_take (j - i) (text_drop i s)

pub text_take-text_drop : (n : ℕ) (s : String) → join_text (text_take n s) (text_drop n s) ≡ s
unfolding text_take text_drop
text_take-text_drop zero s = nil-append s
text_take-text_drop (suc n) String.[] = nil-append String.[]
text_take-text_drop (suc n) (String.◌∷◌ c s) =
    cons-append c (text_take n s) (text_drop n s)
    ∙ ap (λ t. String.◌∷◌ c t) (text_take-text_drop n s)

text_drop-empty : (n : ℕ) → text_drop n String.[] ≡ String.[]
unfolding text_drop
text_drop-empty zero = refl
text_drop-empty (suc n) = refl

pub text_drop-text_drop : (m n : ℕ) (s : String) → text_drop m (text_drop n s) ≡ text_drop (n + m) s
unfolding text_drop
text_drop-text_drop m zero s = ap (λ k. text_drop k s) (omega arith)
text_drop-text_drop m (suc n) String.[] = text_drop-empty m ∙ sym (text_drop-empty (suc n + m))
text_drop-text_drop m (suc n) (String.◌∷◌ c s) =
    let e : suc n + m ≡ suc (n + m) = omega arith in rw e (text_drop-text_drop m n s)

pub count-text_drop : (n : ℕ) (s : String) → count (text_drop n s) ≡ count s - n
unfolding text_drop
count-text_drop zero s = omega arith
count-text_drop (suc n) String.[] = omega (arith, length-nil)
count-text_drop (suc n) (String.◌∷◌ c s) = omega (arith, count-text_drop n s, length-cons c s)

pub count-text_take : (n : ℕ) (s : String) → count (text_take n s) ≡ min n (count s)
unfolding text_take
count-text_take zero s = omega (arith, length-nil)
count-text_take (suc n) String.[] = omega (arith, length-nil)
count-text_take (suc n) (String.◌∷◌ c s) =
    omega (arith, count-text_take n s, length-cons c s, length-cons c (text_take n s))

-- Nothing is left behind the end.
pub text_drop_all : (n : ℕ) (s : String) → count (text_drop n s) ≡ 0 → text_drop n s ≡ String.[]
text_drop_all n s h = nothing (text_drop n s) h
  where
    nothing : (t : String) → count t ≡ 0 → t ≡ String.[]
    nothing String.[] e = refl
    nothing (String.◌∷◌ c t) e = absurd (omega (arith, length-cons c t))
