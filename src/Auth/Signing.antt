-- ===== src/Auth/Signing.antt =====
-- What `HS256TokenSigner.verify` makes of a token: those of `sign`, and those of anyone.
use Prim.Native.Char.{code}
use lbpr.Prelude.{
  ℕ, String, true, false, some, [], ◌∷◌, ◌≡◌, refl, ap, ◌∙◌, arith, leb, if◌then◌else◌,
}
use lbpr.Prelude.Int.{ℤ, pos}
use lbpr.Dict
use lbpr.Text.Parts.{split_on, has_char, split_on-append, split_on-none}
use lbpr.Value.{Value}
use lbpr.Auth.Contracts.{Claims}
use lbpr.Auth.Signer.{
  Libs, Signer, claims_of, refused, expired, signature_mismatch, dot, dotted, b64url, base_headers,
  part_of, signature, sign, verify, check_parts, check_signature, with_payload, check_expiry,
  payload_of,
}
use lbpr.Auth.Base64.{IsPadded, has_char-b64url, unb64url-b64url}

-- what the documentation of Python's base64 and hmac modules and of `int` says
pub record Laws {Bytes : Type 0} (libs : Libs Bytes) : Type 0 where
  pub padded : (b : Bytes) → IsPadded (libs.urlsafe_b64encode b)
  pub restored : (b : Bytes) → libs.urlsafe_b64decode (libs.urlsafe_b64encode b) ≡ some b
  pub same : (b : Bytes) → libs.compare_digest b b ≡ true
  pub equal : (a b : Bytes) → libs.compare_digest a b ≡ true → a ≡ b
  pub whole : (z : ℤ) → libs.int_of (Value.int z) ≡ some z

-- Claims that json writes and reads back, as it does with objects that have text keys.
pub record ReadsBack {Bytes : Type 0} (libs : Libs Bytes) (claims : Claims) : Type 0 where
  pub utf8 : libs.decode (libs.encode (libs.dumps claims)) ≡ some (libs.dumps claims)
  pub json : libs.loads (libs.dumps claims) ≡ some claims

split-dotted :
    (h p s : String)
    → has_char (code dot) h ≡ false
    → has_char (code dot) p ≡ false
    → has_char (code dot) s ≡ false
    → split_on (code dot) (dotted h (dotted p s)) ≡ h ∷ p ∷ s ∷ []
split-dotted h p s no_h no_p no_s =
    split_on-append (code dot) dot h (dotted p s) refl no_h
    ∙ ap (λ ws. h ∷ ws)
        (split_on-append (code dot) dot p s refl no_p
          ∙ ap (λ ws. p ∷ ws) (split_on-none (code dot) s no_s))

module _ {Bytes : Type 0} (libs : Libs Bytes) (laws : Laws libs) (signer : Signer Bytes) where
  payload_of-part_of :
      (claims : Claims)
      → ReadsBack libs claims
      → payload_of libs (part_of libs claims) ≡ some claims
  unfolding payload_of part_of
  payload_of-part_of claims back =
      rw
        (unb64url-b64url libs (libs.encode (libs.dumps claims))
          (laws.padded (libs.encode (libs.dumps claims)))
          (laws.restored (libs.encode (libs.dumps claims))))
        (rw back.utf8 back.json)

  no_dot-part_of : (claims : Claims) → has_char (code dot) (part_of libs claims) ≡ false
  unfolding part_of
  no_dot-part_of claims =
      has_char-b64url libs (libs.encode (libs.dumps claims))
        (laws.padded (libs.encode (libs.dumps claims)))

  verify-sign_checks :
      (now : ℕ) (claims headers : Claims)
      → ReadsBack libs claims
      → verify libs signer now (sign libs signer claims headers)
        ≡ check_expiry libs now (Dict.lookup "exp" claims) claims
  unfolding verify sign
  verify-sign_checks now claims headers back =
      let h : String = part_of libs (base_headers signer.kid headers) in
      let p : String = part_of libs claims in
      let sig : Bytes = signature libs signer (dotted h p) in
      ap (check_parts libs signer now) (
        split-dotted h p (b64url libs sig) (no_dot-part_of (base_headers signer.kid headers))
          (no_dot-part_of claims) (has_char-b64url libs sig (laws.padded sig)))
      ∙ ap (λ o. check_signature libs now sig o p)
          (unb64url-b64url libs sig (laws.padded sig) (laws.restored sig))
      ∙ ap
          (λ b. if b then with_payload libs now (payload_of libs p) else refused signature_mismatch)
          (laws.same sig)
      ∙ ap (with_payload libs now) (payload_of-part_of claims back)

  check_expiry-int :
      (now exp : ℕ) (claims : Claims)
      → check_expiry libs now (some (Value.int (pos exp))) claims
        ≡ (if leb exp now then refused expired else claims_of claims)
  unfolding check_expiry
  check_expiry-int now exp claims = rw (laws.whole (pos exp)) (ground arith)

  -- A token that the signer signed is accepted with the very claims until the second of their
  -- `exp`, and refused as expired from then on, whatever headers were added.
  pub verify-sign :
      (now exp : ℕ) (claims headers : Claims)
      → ReadsBack libs claims
      → Dict.lookup "exp" claims ≡ some (Value.int (pos exp))
      → verify libs signer now (sign libs signer claims headers)
        ≡ (if leb exp now then refused expired else claims_of claims)
  verify-sign now exp claims headers back at_exp =
      verify-sign_checks now claims headers back
      ∙ ap (λ v. check_expiry libs now v claims) at_exp
      ∙ check_expiry-int now exp claims
