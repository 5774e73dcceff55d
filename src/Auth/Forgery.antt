-- ===== src/Auth/Forgery.antt =====
-- What any token that `HS256TokenSigner.verify` accepts consists of.
use Prim.Native.Char.{code}
use lbpr.Prelude.{
  ℕ, String, false, Option, none, some, List, [], ◌∷◌, ◌≡◌, refl, ap, sym, Bool-cases, inl, inr,
}
use mathlib.Core.Path.{subst}
use lbpr.Prelude.Int.{ℤ, pos, leb_ℤ}
use lbpr.Dict
use lbpr.Text.Parts.{split_on, join_on, join_on-split_on}
use lbpr.Value.{Value}
use lbpr.Auth.Contracts.{Claims}
use lbpr.Auth.Signer.{
  Libs, Signer, claims_of, dot, dotted, unb64url, signature, verify, check_parts, check_signature,
  with_payload, check_expiry, expiry, payload_of,
}
use lbpr.Auth.Signing.{Laws}

-- an `exp` that is there is a whole number after the present second
abbrev pub IsCurrent : {Bytes : Type 0} → Libs Bytes → ℕ → Option Value → Type 0
IsCurrent libs now none = Unit
IsCurrent libs now (some v) = (exp : ℤ) × (libs.int_of v ≡ some exp) × (leb_ℤ exp (pos now) ≡ false)

-- the three parts of a token, of which the third decodes to the digest of the others
pub record IsSigned {Bytes : Type 0} (libs : Libs Bytes) (signer : Signer Bytes) (token : String)
    (claims : Claims) : Type 0 where
  pub header_b64 : String
  pub payload_b64 : String
  pub sig_b64 : String
  pub parts : token ≡ dotted header_b64 (dotted payload_b64 sig_b64)
  pub signed : unb64url libs sig_b64 ≡ some (signature libs signer (dotted header_b64 payload_b64))
  pub payload : payload_of libs payload_b64 ≡ some claims

module _ {Bytes : Type 0} (libs : Libs Bytes) (now : ℕ) (claims : Claims) where
  expiry-claims_of :
      (e : Option ℤ) (payload : Claims)
      → expiry e now payload ≡ claims_of claims
      → (payload ≡ claims) × (exp : ℤ) × (e ≡ some exp) × (leb_ℤ exp (pos now) ≡ false)
  expiry-claims_of none payload h = cc
  expiry-claims_of (some exp) payload h = elim (Bool-cases (leb_ℤ exp (pos now))) [
    | inl late ↦ let k = rw late at h in cc
    | inr early ↦ let k = rw early at h in (cc, exp, refl, early)
  ]

  check_expiry-claims_of :
      (v : Option Value) (payload : Claims)
      → check_expiry libs now v payload ≡ claims_of claims
      → (payload ≡ claims) × IsCurrent libs now v
  unfolding check_expiry
  check_expiry-claims_of none payload h = (cc, tt)
  check_expiry-claims_of (some v) payload h =
      let (same, exp, read, early) = expiry-claims_of (libs.int_of v) payload h in
      (same, (exp, read, early))

  with_payload-claims_of :
      (o : Option Claims)
      → with_payload libs now o ≡ claims_of claims
      → (o ≡ some claims) × IsCurrent libs now (Dict.lookup "exp" claims)
  with_payload-claims_of none h = cc
  with_payload-claims_of (some payload) h =
      let (same, current) = check_expiry-claims_of (Dict.lookup "exp" payload) payload h in
      (ap some same, rw (← same) current)

  check_signature-claims_of :
      Laws libs
      → (expected : Bytes) (o : Option Bytes) (p : String)
      → check_signature libs now expected o p ≡ claims_of claims
      → (o ≡ some expected) × (with_payload libs now (payload_of libs p) ≡ claims_of claims)
  check_signature-claims_of laws expected none p h = cc
  check_signature-claims_of laws expected (some sig) p h =
      elim (Bool-cases (libs.compare_digest expected sig)) [
        | inl same ↦ (ap some (sym (laws.equal expected sig same)), rw same at h)
        | inr other ↦ let k = rw other at h in cc
      ]

  check_parts-claims_of :
      Laws libs
      → (signer : Signer Bytes) (parts : List String)
      → check_parts libs signer now parts ≡ claims_of claims
      → IsSigned libs signer (join_on dot parts) claims
        × IsCurrent libs now (Dict.lookup "exp" claims)
  unfolding check_parts join_on
  check_parts-claims_of laws signer [] h = cc
  check_parts-claims_of laws signer (a ∷ []) h = cc
  check_parts-claims_of laws signer (a ∷ b ∷ []) h = cc
  check_parts-claims_of laws signer (a ∷ b ∷ c ∷ x ∷ rest) h = cc
  check_parts-claims_of laws signer (a ∷ b ∷ c ∷ []) h =
      let (signed, checked) =
        check_signature-claims_of laws (signature libs signer (dotted a b)) (unb64url libs c) b h in
      let (read, current) = with_payload-claims_of (payload_of libs b) checked in
      (
        record {
          header_b64 = a;
          payload_b64 = b;
          sig_b64 = c;
          parts = refl;
          signed = signed;
          payload = read;
        },
        current,
      )

  -- Only a token whose third part decodes to the digest that the secret gives of the first two is
  -- accepted, as the claims that its second part reads, and only before the second of their `exp`,
  -- if they have one.
  pub verify-IsSigned :
      Laws libs
      → (signer : Signer Bytes) (token : String) → verify libs signer now token ≡ claims_of claims
      → IsSigned libs signer token claims × IsCurrent libs now (Dict.lookup "exp" claims)
  unfolding verify
  verify-IsSigned laws signer token h =
      subst (λ t. IsSigned libs signer t claims × IsCurrent libs now (Dict.lookup "exp" claims))
        (join_on-split_on dot token)
        (check_parts-claims_of laws signer (split_on (code dot) token) h)
