-- ===== src/Auth/Access.antt =====
-- Whom `verify_access` lets in, whatever the token.
use lbpr.Prelude.{
  ℕ, String, Bool, true, false, Option, none, some, List, [], ◌∷◌, ◌≡◌, refl, ap, Bool-cases, inl,
  inr, All,
}
use lbpr.Dict
use lbpr.Value.{Value}
use lbpr.Auth.Contracts.{User, Claims, AuthConfig}
use lbpr.Auth.Signer.{Checked, claims_of, refused, Libs, Signer, verify}
use lbpr.Auth.Signing.{Laws}
use lbpr.Auth.Forgery.{IsSigned, IsCurrent, verify-IsSigned}
use lbpr.Auth.Sessions.{service_of}
use lbpr.Auth.Users.{UserRepoPort}
use lbpr.Auth.Scopes.{Grants, IsTenant, in_scopes-Grants, other_tenant-IsTenant}
use lbpr.Auth.Service.{
  hs256, Outcome, ok, Service, active_user, user_of, in_scopes, missing_scopes, if_none_missing,
  check_payload, verify_access, verify_checked, cons_missing, other_tenant,
}

-- The payload names the user, who is known and active, and has the tenant and the scopes asked for.
pub record LetsIn (repo : UserRepoPort) (required : List String) (tenant_id : Option String)
    (payload : Claims) (user : User) : Type 0 where
  pub sub : String
  pub named : Dict.lookup "sub" payload ≡ some (Value.text sub)
  pub known : repo.by_id sub ≡ some user
  pub active : user.is_active ≡ true
  pub tenant : IsTenant tenant_id (Dict.lookup "tenant_id" payload)
  pub granted : All (λ s. Grants (Dict.lookup "scopes" payload) s) required

active_user-ok :
    (o : Option User) (user : User)
    → active_user o ≡ ok user
    → (o ≡ some user) × (user.is_active ≡ true)
active_user-ok none user h = cc
active_user-ok (some found) user h = elim (Bool-cases found.is_active) [
  | inl active ↦
      let k = rw active at h in let same : found ≡ user = cc in (ap some same, rw (← same) active)
  | inr inactive ↦ let k = rw inactive at h in cc
]

user_of-ok :
    (repo : UserRepoPort) (v : Option Value) (user : User)
    → user_of repo v ≡ ok user
    → (sub : String) × (v ≡ some (Value.text sub))
      × (repo.by_id sub ≡ some user)
      × (user.is_active ≡ true)
user_of-ok repo (some (Value.text t)) user h =
    let (found, active) = active_user-ok (repo.by_id t) user h in (t, refl, found, active)
user_of-ok repo (some (Value.list l)) user h = cc
user_of-ok repo (some (Value.dict d)) user h = cc
user_of-ok repo (some Value.null) user h = cc
user_of-ok repo (some (Value.bool b)) user h = cc
user_of-ok repo (some (Value.int n)) user h = cc
user_of-ok repo none user h = cc

granted_first :
    (required : List String) (v : Option Value) (s : String) (o : Option Bool)
    (rest : Option (List String))
    → cons_missing s o rest ≡ some []
    → (rest ≡ some [] → All (λ t. Grants v t) required)
    → (o ≡ some true) × All (λ t. Grants v t) required
granted_first required v s none rest k ih = cc
granted_first required v s (some b) none k ih = cc
granted_first required v s (some true) (some rest) k ih = (refl, ih k)
granted_first required v s (some false) (some rest) k ih = cc

missing_scopes-none :
    (required : List String) (v : Option Value)
    → missing_scopes required v ≡ some []
    → All (λ s. Grants v s) required
unfolding missing_scopes
missing_scopes-none [] v h = tt
missing_scopes-none (s ∷ required) v h =
    let (granted, rest) =
      granted_first required v s (in_scopes s v) (missing_scopes required v) h
        (missing_scopes-none required v) in
    (in_scopes-Grants s v granted, rest)

if_none_missing-ok :
    (o : Option (List String)) (result : Outcome User) (user : User)
    → if_none_missing o result ≡ ok user
    → (o ≡ some []) × (result ≡ ok user)
if_none_missing-ok none result user h = cc
if_none_missing-ok (some []) result user h = (refl, h)
if_none_missing-ok (some (s ∷ more)) result user h = cc

check_payload-ok :
    (service : Service) (required : List String) (tenant_id : Option String) (payload : Claims)
    (user : User)
    → check_payload service required tenant_id payload ≡ ok user
    → LetsIn service.user_repo required tenant_id payload user
unfolding check_payload
check_payload-ok service required tenant_id payload user h =
    elim (Bool-cases (other_tenant tenant_id (Dict.lookup "tenant_id" payload))) [
      | inl other ↦ let k = rw other at h in cc
      | inr same ↦
          let (none_missing, found) =
            if_none_missing-ok (missing_scopes required (Dict.lookup "scopes" payload))
              (user_of service.user_repo (Dict.lookup "sub" payload)) user (rw same at h) in
          let (sub, named, known, active) =
            user_of-ok service.user_repo (Dict.lookup "sub" payload) user found in
          record {
            sub = sub;
            named = named;
            known = known;
            active = active;
            tenant = other_tenant-IsTenant tenant_id (Dict.lookup "tenant_id" payload) same;
            granted = missing_scopes-none required (Dict.lookup "scopes" payload) none_missing;
          }
    ]

verify_checked-ok :
    (service : Service) (required : List String) (tenant_id : Option String) (c : Checked)
    (user : User)
    → verify_checked service required tenant_id c ≡ ok user
    → (payload : Claims) × (c ≡ claims_of payload)
      × LetsIn service.user_repo required tenant_id payload user
verify_checked-ok service required tenant_id (refused reason) user h = cc
verify_checked-ok service required tenant_id (claims_of payload) user h =
    (payload, refl, check_payload-ok service required tenant_id payload user h)

-- Whoever is let in shows a token that carries the signature of the secret and has not expired,
-- whose claims name a known and active user, the tenant that was asked for, if one was, and every
-- scope that was required: as an item of the scopes, or a key or a part of them where they are a
-- dict or a text.
pub verify_access-LetsIn :
    {Bytes : Type 0} (libs : Libs Bytes) (signer : Signer Bytes) (repo : UserRepoPort)
    (cfg : AuthConfig) (now : ℕ) (token : String) (required : List String)
    (tenant_id : Option String) (user : User)
    → Laws libs
    → verify_access (service_of libs signer repo cfg) now token required tenant_id ≡ ok user
    → (payload : Claims) × IsSigned libs signer token payload
      × IsCurrent libs now (Dict.lookup "exp" payload)
      × LetsIn repo required tenant_id payload user
unfolding verify_access hs256
verify_access-LetsIn libs signer repo cfg now token required tenant_id user laws h =
    let (payload, accepted, lets_in) =
      verify_checked-ok (service_of libs signer repo cfg) required tenant_id
        (verify libs signer now token) user h in
    let (signed, current) = verify-IsSigned libs now payload laws signer token accepted in
    (payload, signed, current, lets_in)
