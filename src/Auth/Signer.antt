-- ===== src/Auth/Signer.antt =====
-- components/authservice/crypto.py: `_b64url`, `_unb64url` and `HS256TokenSigner`. The functions of
-- Python's base64, json and hmac modules that it calls are fields of `Libs`; a field whose function
-- may raise answers none then.
use Prim.Native.Char.{Char, code}
use Prim.Native.String.{◌++◌ as join_text, count}
use lbpr.Prelude.{
  ℕ, zero, suc, ◌-◌, ◌%◌, String, Bool, true, false, Option, none, some, List, [], ◌∷◌, ◌==◌, ◌&&◌,
  if◌then◌else◌,
}
use lbpr.Prelude.Int.{ℤ, pos, leb_ℤ}
use lbpr.Dict
use lbpr.Dict.{Dict}
use lbpr.Text.Parts.{split_on}
use lbpr.Value.{Value}
use lbpr.Auth.Contracts.{Claims}

-- What a signed payload holds is an object, since `sign` takes a dict.
pub record Libs (Bytes : Type 0) : Type 0 where
  pub encode : String → Bytes
  pub decode : Bytes → Option String
  pub urlsafe_b64encode : Bytes → String
  pub urlsafe_b64decode : String → Option Bytes
  pub dumps : Claims → String
  pub loads : String → Option Claims
  pub hmac_sha256 : Bytes → Bytes → Bytes
  pub compare_digest : Bytes → Bytes → Bool
  pub int_of : Value → Option ℤ

pub data Reason : Type 0 where
  invalid_format : Reason
  signature_mismatch : Reason
  expired : Reason
  unreadable : Reason

-- what `verify` returns or raises
pub data Checked : Type 0 where
  claims_of : Claims → Checked
  refused : Reason → Checked

pub record Signer (Bytes : Type 0) : Type 0 where
  pub secret : Bytes
  pub kid : Option String

abbrev pub dot : Char
dot = "."

abbrev pub equals_sign : Char
equals_sign = "="

unfoldable pub is_empty : String → Bool
is_empty String.[] = true
is_empty (String.◌∷◌ c s) = false

-- `s.rstrip(c)` for one character
unfoldable pub rstrip : ℕ → String → String
unfolding is_empty
rstrip c String.[] = String.[]
rstrip c (String.◌∷◌ x s) =
    let rest : String = rstrip c s in
    if is_empty rest && code x == c then String.[] else String.◌∷◌ x rest

-- `c * n`
unfoldable pub repeat_char : Char → ℕ → String
repeat_char c zero = String.[]
repeat_char c (suc n) = String.◌∷◌ c (repeat_char c n)

-- `-n % 4`
abbrev pub missing : ℕ → ℕ
missing n = (4 - n % 4) % 4

-- `f"{a}.{b}"`
abbrev pub dotted : String → String → String
dotted a b = join_text a (String.◌∷◌ dot b)

-- `if self._kid: base_headers["kid"] = self._kid`
unfoldable pub with_kid : Option String → Claims → Claims
with_kid none headers = headers
with_kid (some kid) headers =
    if is_empty kid then headers else Dict.insert "kid" (Value.text kid) headers

-- `base_headers.update(headers)`
unfoldable pub update_with : Claims → Claims → Claims
update_with [] headers = headers
update_with ((k, v) ∷ more) headers = update_with more (Dict.insert k v headers)

unfoldable pub base_headers : Option String → Claims → Claims
unfolding with_kid update_with
base_headers kid headers =
    update_with headers
      (with_kid kid (("alg", Value.text "HS256") ∷ ("typ", Value.text "JWT") ∷ []))

-- `if "exp" in payload and now >= int(payload["exp"])`
abbrev pub expiry : Option ℤ → ℕ → Claims → Checked
expiry none now payload = refused unreadable
expiry (some exp) now payload = if leb_ℤ exp (pos now) then refused expired else claims_of payload

abbrev pub kids_of : Option String → List String
kids_of none = []
kids_of (some kid) = if is_empty kid then [] else kid ∷ []

module _ {Bytes : Type 0} where
  unfoldable pub b64url : Libs Bytes → Bytes → String
  b64url libs info = rstrip (code equals_sign) (libs.urlsafe_b64encode info)

  unfoldable pub unb64url : Libs Bytes → String → Option Bytes
  unb64url libs s =
      libs.urlsafe_b64decode (join_text s (repeat_char equals_sign (missing (count s))))

  -- An empty secret is a ValueError.
  unfoldable pub new_signer : Libs Bytes → String → Option String → Option (Signer Bytes)
  unfolding is_empty
  new_signer libs secret kid =
      if is_empty secret then none else some (record { secret = libs.encode secret; kid = kid })

  -- `_b64url(json.dumps(value).encode("utf-8"))`
  unfoldable pub part_of : Libs Bytes → Claims → String
  unfolding b64url
  part_of libs claims = b64url libs (libs.encode (libs.dumps claims))

  unfoldable pub signature : Libs Bytes → Signer Bytes → String → Bytes
  signature libs signer signing_input = libs.hmac_sha256 signer.secret (libs.encode signing_input)

  unfoldable pub sign : Libs Bytes → Signer Bytes → Claims → Claims → String
  unfolding part_of signature b64url
  sign libs signer claims headers =
      let header_b64 : String = part_of libs (base_headers signer.kid headers) in
      let payload_b64 : String = part_of libs claims in
      dotted header_b64
        (dotted payload_b64 (b64url libs (signature libs signer (dotted header_b64 payload_b64))))

  unfoldable pub check_expiry : Libs Bytes → ℕ → Option Value → Claims → Checked
  check_expiry libs now none payload = claims_of payload
  check_expiry libs now (some v) payload = expiry (libs.int_of v) now payload

  abbrev pub with_payload : Libs Bytes → ℕ → Option Claims → Checked
  with_payload libs now none = refused unreadable
  with_payload libs now (some payload) = check_expiry libs now (Dict.lookup "exp" payload) payload

  abbrev pub decoded : Libs Bytes → Option String → Option Claims
  decoded libs none = none
  decoded libs (some text) = libs.loads text

  abbrev pub bytes_decoded : Libs Bytes → Option Bytes → Option Claims
  bytes_decoded libs none = none
  bytes_decoded libs (some info) = decoded libs (libs.decode info)

  -- `json.loads(_unb64url(payload_b64).decode("utf-8"))`
  unfoldable pub payload_of : Libs Bytes → String → Option Claims
  unfolding unb64url
  payload_of libs payload_b64 = bytes_decoded libs (unb64url libs payload_b64)

  abbrev pub check_signature : Libs Bytes → ℕ → Bytes → Option Bytes → String → Checked
  check_signature libs now expected none payload_b64 = refused unreadable
  check_signature libs now expected (some sig) payload_b64 =
      if libs.compare_digest expected sig
      then with_payload libs now (payload_of libs payload_b64)
      else refused signature_mismatch

  unfoldable pub check_parts : Libs Bytes → Signer Bytes → ℕ → List String → Checked
  unfolding check_expiry payload_of signature unb64url
  check_parts libs signer now (h ∷ p ∷ s ∷ []) =
      check_signature libs now (signature libs signer (dotted h p)) (unb64url libs s) p
  check_parts libs signer now (h ∷ p ∷ s ∷ x ∷ rest) = refused invalid_format
  check_parts libs signer now (h ∷ p ∷ []) = refused invalid_format
  check_parts libs signer now (h ∷ []) = refused invalid_format
  check_parts libs signer now [] = refused invalid_format

  unfoldable pub verify : Libs Bytes → Signer Bytes → ℕ → String → Checked
  unfolding check_parts
  verify libs signer now token = check_parts libs signer now (split_on (code dot) token)

  abbrev pub active_kid : Signer Bytes → Option String
  active_kid signer = signer.kid

  unfoldable pub list_kids : Signer Bytes → List String
  unfolding is_empty
  list_kids signer = kids_of signer.kid
