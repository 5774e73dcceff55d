-- ===== src/Auth/Base64.antt =====
-- `_b64url` drops the padding of base64 and `_unb64url` restores it.
use Prim.Native.Char.{Char, code}
use Prim.Native.String.{◌++◌ as join_text, count}
use text.Mathlib.TextLemmas.{nil-append, cons-append}
use lbpr.Prelude.{ℕ, zero, suc, ◌+◌, ◌%◌, ◌<◌, String, false, some, ◌≡◌, refl, ap, sym, ◌∙◌, arith}
use lbpr.Text.Parts.{has_char}
use lbpr.Auth.Signer.{Libs, dot, equals_sign, rstrip, repeat_char, missing, b64url, unb64url}

-- what RFC 4648 says of a text in its URL-safe alphabet: characters that are neither a dot nor an
-- equals sign, and equals signs after them that bring the length to a multiple of four
pub record IsPadded (s : String) : Type 0 where
  pub body : String
  pub padding : ℕ
  pub shape : s ≡ join_text body (repeat_char equals_sign padding)
  pub no_padding : has_char (code equals_sign) body ≡ false
  pub no_dot : has_char (code dot) body ≡ false
  pub short : padding < 4
  pub whole : (count body + padding) % 4 ≡ 0

rstrip-repeat_char : (c : Char) (n : ℕ) → rstrip (code c) (repeat_char c n) ≡ String.[]
unfolding rstrip repeat_char
rstrip-repeat_char c zero = refl
rstrip-repeat_char c (suc n) = rw (rstrip-repeat_char c n) (ground arith)

rstrip-append :
    (c : Char) (a : String) (n : ℕ)
    → has_char (code c) a ≡ false
    → rstrip (code c) (join_text a (repeat_char c n)) ≡ a
unfolding rstrip has_char
rstrip-append c String.[] n h = rw (nil-append (repeat_char c n)) (rstrip-repeat_char c n)
rstrip-append c (String.◌∷◌ x a) n h =
    rw (cons-append x a (repeat_char c n)) (ground (arith, rstrip-append c a n))

missing-eq : (n k : ℕ) → k < 4 → (n + k) % 4 ≡ 0 → missing n ≡ k
missing-eq n k h e = omega arith

module _ {Bytes : Type 0} (libs : Libs Bytes) (info : Bytes) where
  pub b64url-body :
      (padded : IsPadded (libs.urlsafe_b64encode info)) → b64url libs info ≡ padded.body
  unfolding b64url
  b64url-body padded =
      rw padded.shape (rstrip-append equals_sign padded.body padded.padding padded.no_padding)

  pub has_char-b64url :
      IsPadded (libs.urlsafe_b64encode info) → has_char (code dot) (b64url libs info) ≡ false
  has_char-b64url padded = rw (b64url-body padded) padded.no_dot

  pub unb64url-b64url :
      IsPadded (libs.urlsafe_b64encode info)
      → libs.urlsafe_b64decode (libs.urlsafe_b64encode info) ≡ some info
      → unb64url libs (b64url libs info) ≡ some info
  unfolding unb64url
  unb64url-b64url padded h =
      ap (unb64url libs) (b64url-body padded)
      ∙ ap (λ k. libs.urlsafe_b64decode (join_text padded.body (repeat_char equals_sign k)))
          (missing-eq (count padded.body) padded.padding padded.short padded.whole)
      ∙ ap libs.urlsafe_b64decode (sym padded.shape)
      ∙ h
