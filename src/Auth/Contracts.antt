-- ===== src/Auth/Contracts.antt =====
-- components/authservice/contracts.py and config.py: users, claims, tokens, requests and error
-- codes. Times are whole seconds since the epoch. The parts of `UWFResponse` that the routes leave
-- at their defaults are left out.
use lbpr.Prelude.{ℕ, String, Bool, Option, List, [], ◌∷◌}
use lbpr.Prelude.Int.{pos}
use lbpr.Dict.{Dict}
use lbpr.Value.{Value, Items}

pub record User : Type 0 where
  pub id : String
  pub email : String
  pub display_name : Option String
  pub tenant_id : String
  pub is_active : Bool
  pub scopes : List String

abbrev pub Claims : Type 0
Claims = Dict Value

abbrev pub scope_items : List String → Items
scope_items [] = Items.nil
scope_items (s ∷ scopes) = Items.cons (Value.text s) (scope_items scopes)

-- `AccessTokenClaims(...).dict()`
unfoldable pub access_claims : User → ℕ → ℕ → String → String → String → Claims
access_claims user iat exp iss aud jti =
    ("sub", Value.text user.id)
    ∷ ("tenant_id", Value.text user.tenant_id)
    ∷ ("scopes", Value.list (scope_items user.scopes))
    ∷ ("iat", Value.int (pos iat))
    ∷ ("exp", Value.int (pos exp))
    ∷ ("iss", Value.text iss)
    ∷ ("aud", Value.text aud)
    ∷ ("jti", Value.text jti)
    ∷ []

-- `RefreshTokenClaims(...).dict()`
unfoldable pub refresh_claims : User → ℕ → ℕ → String → String → String → Claims
refresh_claims user iat exp iss aud jti =
    ("sub", Value.text user.id)
    ∷ ("tenant_id", Value.text user.tenant_id)
    ∷ ("typ", Value.text "refresh")
    ∷ ("iat", Value.int (pos iat))
    ∷ ("exp", Value.int (pos exp))
    ∷ ("iss", Value.text iss)
    ∷ ("aud", Value.text aud)
    ∷ ("jti", Value.text jti)
    ∷ []

pub record IssuedTokens : Type 0 where
  pub access_token : String
  pub refresh_token : String
  pub token_type : String
  pub expires_in : ℕ

pub record LoginRequest : Type 0 where
  pub email : String
  pub password : String

pub record RefreshRequest : Type 0 where
  pub refresh_token : String

pub data AuthErrorCode : Type 0 where
  bad_credentials : AuthErrorCode
  inactive_user : AuthErrorCode
  invalid_token : AuthErrorCode
  missing_scope : AuthErrorCode
  tenant_mismatch : AuthErrorCode

-- The lifetimes are counts of seconds.
pub record AuthConfig : Type 0 where
  pub access_ttl_seconds : ℕ
  pub refresh_ttl_seconds : ℕ
  pub issuer : String
  pub audience : String

-- `UWFResponse(ok=True, result=...)` and `UWFResponse(ok=False, error=...)`
pub data Response (A : Type 0) : Type 0 where
  success : A → Response A
  failure : AuthErrorCode → Response A
