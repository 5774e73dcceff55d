-- ===== src/Text/Find.antt =====
-- Python's `s in t` for texts.
use Prim.Native.Char.{code}
use Prim.Native.String.{◌++◌ as join_text}
use text.Mathlib.TextEquality.{Char-path}
use text.Mathlib.TextLemmas.{nil-append, cons-append}
use lbpr.Prelude.{
  String, ◌≡◌, refl, ap, sym, ◌∙◌, Bool, true, false, ◌&&◌, ◌||◌, ◌==◌, Bool-cases, inl, inr, arith,
}

unfoldable pub starts_with : String → String → Bool
starts_with String.[] t = true
starts_with (String.◌∷◌ c s) String.[] = false
starts_with (String.◌∷◌ c s) (String.◌∷◌ d t) = code c == code d && starts_with s t

unfoldable pub has_text : String → String → Bool
unfolding starts_with
has_text s String.[] = starts_with s String.[]
has_text s (String.◌∷◌ d t) = starts_with s (String.◌∷◌ d t) || has_text s t

-- A text starts with another one exactly if it is that one with something after it.
pub starts_with-append :
    (s t : String) → starts_with s t ≡ true → (post : String) × (t ≡ join_text s post)
unfolding starts_with
starts_with-append String.[] t h = (t, sym (nil-append t))
starts_with-append (String.◌∷◌ c s) String.[] h = cc
starts_with-append (String.◌∷◌ c s) (String.◌∷◌ d t) h = elim (Bool-cases (code c == code d)) [
  | inl same ↦
      let (post, e) = starts_with-append s t (rw same at h) in
      (
        post,
        ap (String.◌∷◌ d) e
            ∙ ap (λ x. String.◌∷◌ x (join_text s post)) (sym (Char-path c d (ground arith)))
            ∙ sym (cons-append c s post),
      )
  | inr other ↦ let k = rw other at h in cc
]

pub starts_with_self : (s post : String) → starts_with s (join_text s post) ≡ true
unfolding starts_with
starts_with_self String.[] post = refl
starts_with_self (String.◌∷◌ c s) post =
    rw (cons-append c s post) (ground (arith, starts_with_self s post))
