-- ===== src/Auth/Service.antt =====
-- components/authservice/service.py: `AuthService`, over the ports of a signer and of users, and
-- the two routes of routes.py that call it. A call takes the second that its clock shows, and the
-- ids that it draws.
use lbpr.Prelude.{
  ℕ, ◌+◌, String, Bool, true, false, not, ◌&&◌, Option, none, some, List, [], ◌∷◌, str_eq,
  if◌then◌else◌,
}
use lbpr.Dict
use lbpr.Value.{Value, Items, Fields}
use lbpr.Auth.Contracts.{
  User, Claims, access_claims, refresh_claims, IssuedTokens, LoginRequest, RefreshRequest,
  AuthErrorCode, bad_credentials, inactive_user, invalid_token, missing_scope, tenant_mismatch,
  AuthConfig, Response, success, failure,
}
use lbpr.Auth.Signer.{Checked, claims_of, refused, Libs, Signer, sign, verify, is_empty}
use lbpr.Auth.Users.{UserRepoPort}
use lbpr.Text.Find.{has_text}

-- `TokenSignerPort`, the clock of the signer an argument of `verify`
pub record TokenSigner : Type 0 where
  pub sign : Claims → Claims → String
  pub verify : ℕ → String → Checked

unfoldable pub hs256 : {Bytes : Type 0} → Libs Bytes → Signer Bytes → TokenSigner
hs256 libs signer = record { sign = sign libs signer; verify = verify libs signer }

-- a result, an `AuthServiceException`, or another exception that nothing here catches
pub data Outcome (A : Type 0) : Type 0 where
  ok : A → Outcome A
  auth_error : AuthErrorCode → Outcome A
  type_error : Outcome A

pub record Service : Type 0 where
  pub user_repo : UserRepoPort
  pub signer : TokenSigner
  pub cfg : AuthConfig

-- the ids of the two tokens
abbrev pub Ids : Type 0
Ids = String × String

-- `headers={"typ": "JWT"}`
abbrev pub refresh_headers : Claims
refresh_headers = ("typ", Value.text "JWT") ∷ []

abbrev pub access_of : Service → User → ℕ → String → Claims
access_of service user now jti =
    access_claims user now (now + service.cfg.access_ttl_seconds) service.cfg.issuer
      service.cfg.audience jti

abbrev pub refresh_of : Service → User → ℕ → String → Claims
refresh_of service user now jti =
    refresh_claims user now (now + service.cfg.refresh_ttl_seconds) service.cfg.issuer
      service.cfg.audience jti

-- `_issue_for_user`
unfoldable pub issue_for_user : Service → ℕ → Ids → User → IssuedTokens
issue_for_user service now (access_id, refresh_id) user = record {
  access_token = service.signer.sign (access_of service user now access_id) [];
  refresh_token = service.signer.sign (refresh_of service user now refresh_id) refresh_headers;
  token_type = "Bearer";
  expires_in = service.cfg.access_ttl_seconds;
}

abbrev pub login_user : Service → ℕ → Ids → Option User → Outcome IssuedTokens
login_user service now ids none = auth_error bad_credentials
login_user service now ids (some user) =
    if user.is_active then ok (issue_for_user service now ids user) else auth_error inactive_user

unfoldable pub login : Service → ℕ → Ids → LoginRequest → Outcome IssuedTokens
unfolding issue_for_user
login service now ids req =
    login_user service now ids (service.user_repo.by_credentials req.email req.password)

-- `payload.get(key) == s`
abbrev pub is_text : Option Value → String → Bool
is_text (some (Value.text t)) s = str_eq t s
is_text (some Value.null) s = false
is_text (some (Value.bool b)) s = false
is_text (some (Value.int n)) s = false
is_text (some (Value.list l)) s = false
is_text (some (Value.dict d)) s = false
is_text none s = false

-- `if not user or not user.is_active: raise`, else the user
abbrev pub active_user : Option User → Outcome User
active_user none = auth_error invalid_token
active_user (some user) = if user.is_active then ok user else auth_error invalid_token

-- The user of the claim `sub`. A subject that is no text is the id of nobody, and one that cannot
-- be the key of a dict is a TypeError.
abbrev pub user_of : UserRepoPort → Option Value → Outcome User
user_of repo (some (Value.text t)) = active_user (repo.by_id t)
user_of repo (some (Value.list l)) = type_error
user_of repo (some (Value.dict d)) = type_error
user_of repo (some Value.null) = auth_error invalid_token
user_of repo (some (Value.bool b)) = auth_error invalid_token
user_of repo (some (Value.int n)) = auth_error invalid_token
user_of repo none = auth_error invalid_token

abbrev pub issue_if_ok : Service → ℕ → Ids → Outcome User → Outcome IssuedTokens
issue_if_ok service now ids (ok user) = ok (issue_for_user service now ids user)
issue_if_ok service now ids (auth_error code) = auth_error code
issue_if_ok service now ids type_error = type_error

abbrev pub refresh_payload : Service → ℕ → Ids → Checked → Outcome IssuedTokens
refresh_payload service now ids (refused reason) = auth_error invalid_token
refresh_payload service now ids (claims_of payload) =
    if is_text (Dict.lookup "typ" payload) "refresh"
    then issue_if_ok service now ids (user_of service.user_repo (Dict.lookup "sub" payload))
    else auth_error invalid_token

-- The signer reads its own clock, before the service reads its one.
unfoldable pub refresh : Service → ℕ → ℕ → Ids → RefreshRequest → Outcome IssuedTokens
unfolding issue_for_user
refresh service checked now ids req =
    refresh_payload service now ids (service.signer.verify checked req.refresh_token)

unfoldable pub among_items : String → Items → Bool
among_items s Items.nil = false
among_items s (Items.cons v items) =
    let rest : Bool = among_items s items in if is_text (some v) s then true else rest

unfoldable pub among_keys : String → Fields → Bool
among_keys s Fields.end = false
among_keys s (Fields.field k v fields) =
    let rest : Bool = among_keys s fields in if str_eq k s then true else rest

-- `s in payload.get("scopes", [])`, none for a TypeError
unfoldable pub in_scopes : String → Option Value → Option Bool
unfolding among_items among_keys has_text
in_scopes s none = some false
in_scopes s (some (Value.list items)) = some (among_items s items)
in_scopes s (some (Value.dict fields)) = some (among_keys s fields)
in_scopes s (some (Value.text t)) = some (has_text s t)
in_scopes s (some Value.null) = none
in_scopes s (some (Value.bool b)) = none
in_scopes s (some (Value.int n)) = none

abbrev pub cons_missing : String → Option Bool → Option (List String) → Option (List String)
cons_missing s none rest = none
cons_missing s (some b) none = none
cons_missing s (some b) (some rest) = some (if b then rest else s ∷ rest)

-- `[s for s in required_scopes if s not in scopes]`
unfoldable pub missing_scopes : List String → Option Value → Option (List String)
unfolding in_scopes
missing_scopes [] scopes = some []
missing_scopes (s ∷ required) scopes =
    cons_missing s (in_scopes s scopes) (missing_scopes required scopes)

abbrev pub if_none_missing : Option (List String) → Outcome User → Outcome User
if_none_missing none result = type_error
if_none_missing (some []) result = result
if_none_missing (some (s ∷ more)) result = auth_error missing_scope

-- `tenant_id and tok_tenant != tenant_id`
abbrev pub other_tenant : Option String → Option Value → Bool
other_tenant none tok_tenant = false
other_tenant (some tenant_id) tok_tenant =
    not (is_empty tenant_id) && not (is_text tok_tenant tenant_id)

-- no scopes required is the same as none given
unfoldable pub check_payload : Service → List String → Option String → Claims → Outcome User
unfolding missing_scopes is_empty
check_payload service required tenant_id payload =
    if other_tenant tenant_id (Dict.lookup "tenant_id" payload)
    then auth_error tenant_mismatch
    else if_none_missing (missing_scopes required (Dict.lookup "scopes" payload))
        (user_of service.user_repo (Dict.lookup "sub" payload))

abbrev pub verify_checked : Service → List String → Option String → Checked → Outcome User
verify_checked service required tenant_id (refused reason) = auth_error invalid_token
verify_checked service required tenant_id (claims_of payload) =
    check_payload service required tenant_id payload

unfoldable pub verify_access : Service → ℕ → String → List String → Option String → Outcome User
unfolding check_payload
verify_access service now token required tenant_id =
    verify_checked service required tenant_id (service.signer.verify now token)

-- the answers of the routes; another exception is one of the server
abbrev pub respond : {A : Type 0} → Outcome A → Option (Response A)
respond (ok a) = some (success a)
respond (auth_error code) = some (failure code)
respond type_error = none

unfoldable pub post_login : Service → ℕ → Ids → LoginRequest → Option (Response IssuedTokens)
unfolding login
post_login service now ids req = respond (login service now ids req)

unfoldable pub post_refresh :
    Service → ℕ → ℕ → Ids → RefreshRequest → Option (Response IssuedTokens)
unfolding refresh
post_refresh service checked now ids req = respond (refresh service checked now ids req)
