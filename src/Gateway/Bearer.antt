-- ===== src/Gateway/Bearer.antt =====
-- Who may not be served, by the header `Authorization`, and what `_auth_ctx` of
-- components/apigateway/routers/public.py makes of it.
use Prim.Native.Char.{Char, code}
use Prim.Native.String.{◌++◌ as join_text}
use text.Mathlib.TextLemmas.{nil-append, cons-append}
use lbpr.Prelude.{String, ◌≡◌, refl, false, Option, none, some, List, Bool-cases, inl, inr, arith}
use lbpr.Text.{is_space}
use lbpr.Text.Find.{starts_with, starts_with-append, starts_with_self}
use lbpr.Text.Parts.{has_char}
use lbpr.Text.Strip.{strip, no_text}
use lbpr.Gateway.Contracts.{AuthContext, GatewayError, auth_error, ok, err}
use lbpr.Gateway.Ports.{Ports}
use lbpr.Gateway.Routes.{after_space, auth_ctx}

abbrev space : Char
space = " "

-- a scheme, a space and a token
abbrev pub header_of : String → String → String
header_of scheme token = join_text scheme (String.◌∷◌ space token)

-- The header starts with the word "bearer" and a space, in letters of any case.
abbrev pub IsBearer : (String → String) → String → Type 0
IsBearer lower header = (rest : String) × (lower header ≡ join_text "bearer " rest)

-- The error for a caller with no header, with another one than a bearer's, with a token that the
-- service of tokens refuses, or with a token for which it refuses the scopes.
pub data IsUnserved {W : Type 0} (lower : String → String) (ports : Ports W) (scopes : List String)
    : Option String → GatewayError → Type 0 where
  no_header : IsUnserved lower ports scopes none auth_error
  no_bearer :
      (header : String)
      → ¬ IsBearer lower header
      → IsUnserved lower ports scopes (some header) auth_error
  bad_token :
      (scheme token : String) {e : GatewayError}
      → has_char (code space) scheme ≡ false
      → IsBearer lower (header_of scheme token)
      → ports.auth.verify_token (strip is_space token) ≡ err e
      → IsUnserved lower ports scopes (some (header_of scheme token)) e
  no_scope :
      (scheme token : String) {e : GatewayError} (ctx : AuthContext)
      → has_char (code space) scheme ≡ false
      → IsBearer lower (header_of scheme token)
      → ports.auth.verify_token (strip is_space token) ≡ ok ctx
      → ports.auth.authorize ctx scopes ≡ err e
      → IsUnserved lower ports scopes (some (header_of scheme token)) e

after_space-header_of :
    (scheme token : String)
    → has_char (code space) scheme ≡ false
    → after_space (header_of scheme token) ≡ some token
unfolding after_space has_char
after_space-header_of String.[] token h = rw (nil-append (String.◌∷◌ space token)) refl
after_space-header_of (String.◌∷◌ c scheme) token h =
    rw (cons-append c scheme (String.◌∷◌ space token))
      (ground (arith, after_space-header_of scheme token))

no_text-header_of : (scheme token : String) → no_text (header_of scheme token) ≡ false
unfolding no_text
no_text-header_of String.[] token = rw (nil-append (String.◌∷◌ space token)) refl
no_text-header_of (String.◌∷◌ c scheme) token =
    rw (cons-append c scheme (String.◌∷◌ space token)) refl

module _ {W : Type 0} (lower : String → String) (ports : Ports W) where
  pub auth_ctx-no_bearer :
      (header : String)
      → ¬ IsBearer lower header
      → auth_ctx lower ports (some header) ≡ err auth_error
  unfolding auth_ctx
  auth_ctx-no_bearer header other = elim (Bool-cases (starts_with "bearer " (lower header))) [
    | inl there ↦ elim (other (starts_with-append "bearer " (lower header) there)) [ ]
    | inr not_there ↦ elim (Bool-cases (no_text header)) [
      | inl empty ↦ rw empty refl
      | inr full ↦ rw (full, not_there) refl
    ]
  ]

  pub auth_ctx-header_of :
      (scheme token : String)
      → has_char (code space) scheme ≡ false
      → IsBearer lower (header_of scheme token)
      → auth_ctx lower ports (some (header_of scheme token))
        ≡ ports.auth.verify_token (strip is_space token)
  unfolding auth_ctx
  auth_ctx-header_of scheme token one (rest, bearer) =
      rw
        (
          no_text-header_of scheme token,
          bearer,
          starts_with_self "bearer " rest,
          after_space-header_of scheme token one,
        )
        refl
