-- ===== src/Auth/Grants.antt =====
-- What the claims of a user's tokens grant.
use lbpr.Prelude.{
  ℕ, String, Bool, true, false, not, ◌&&◌, Option, none, some, List, [], ◌∷◌, ◌≡◌, refl, ap, arith,
  leb, str_eq, if◌then◌else◌, Bool-cases, inl, inr,
}
use lbpr.Dict
use lbpr.Value.{Value}
use lbpr.Auth.Contracts.{
  User, Claims, scope_items, access_claims, refresh_claims, invalid_token, missing_scope,
  tenant_mismatch,
}
use lbpr.Auth.Signer.{is_empty}
use lbpr.Auth.Service.{
  Outcome, ok, auth_error, Service, active_user, among_items, in_scopes, missing_scopes,
  if_none_missing, check_payload, other_tenant,
}

abbrev pub listed : String → List String → Bool
listed s [] = false
listed s (t ∷ scopes) = let rest : Bool = listed s scopes in if str_eq t s then true else rest

abbrev pub all_listed : List String → List String → Bool
all_listed [] scopes = true
all_listed (s ∷ required) scopes =
    let rest : Bool = all_listed required scopes in if listed s scopes then rest else false

-- A tenant was asked for, and not this one.
abbrev pub asks_other : Option String → String → Bool
asks_other none tenant_id = false
asks_other (some asked) tenant_id = not (is_empty asked) && not (str_eq tenant_id asked)

-- what a token of a user with some scopes is good for, from the second of its expiry on and before
abbrev pub verdict : User → List String → ℕ → ℕ → List String → Option String → Outcome User
verdict user scopes exp later required tenant_id =
    if leb exp later
    then auth_error invalid_token
    else if asks_other tenant_id user.tenant_id
    then auth_error tenant_mismatch
    else if all_listed required scopes
    then ok user
    else auth_error missing_scope

among_items-scope_items :
    (s : String) (scopes : List String) → among_items s (scope_items scopes) ≡ listed s scopes
unfolding among_items
among_items-scope_items s [] = refl
among_items-scope_items s (t ∷ scopes) = ground (arith, among_items-scope_items s scopes)

abbrev unlisted : List String → List String → List String
unlisted [] scopes = []
unlisted (s ∷ required) scopes =
    let rest : List String = unlisted required scopes in if listed s scopes then rest else s ∷ rest

missing_scopes-unlisted :
    (required : List String) (value : Option Value) (scopes : List String)
    → ((s : String) → in_scopes s value ≡ some (listed s scopes))
    → missing_scopes required value ≡ some (unlisted required scopes)
unfolding missing_scopes
missing_scopes-unlisted [] value scopes h = refl
missing_scopes-unlisted (s ∷ required) value scopes h =
    rw (h s) (rw (missing_scopes-unlisted required value scopes h) refl)

if_none_missing-unlisted :
    (required scopes : List String) (result : Outcome User)
    → if_none_missing (some (unlisted required scopes)) result
      ≡ (if all_listed required scopes then result else auth_error missing_scope)
if_none_missing-unlisted [] scopes result = refl
if_none_missing-unlisted (s ∷ required) scopes result = elim (Bool-cases (listed s scopes)) [
  | inl there ↦ rw there (if_none_missing-unlisted required scopes result)
  | inr absent ↦ rw absent refl
]

other_tenant-asks_other :
    (asked : Option String) (tenant_id : String)
    → other_tenant asked (some (Value.text tenant_id)) ≡ asks_other asked tenant_id
other_tenant-asks_other none tenant_id = refl
other_tenant-asks_other (some asked) tenant_id = refl

module _ (service : Service) (user : User) (active : user.is_active ≡ true)
    (known : service.user_repo.by_id user.id ≡ some user) where
  pub user_of-known : active_user (service.user_repo.by_id user.id) ≡ ok user
  user_of-known = rw known (rw active refl)

  -- claims of the user with some scopes
  pub record IsOf (payload : Claims) (scopes : List String) : Type 0 where
    pub tenant : Dict.lookup "tenant_id" payload ≡ some (Value.text user.tenant_id)
    pub subject : Dict.lookup "sub" payload ≡ some (Value.text user.id)
    pub granted : (s : String) → in_scopes s (Dict.lookup "scopes" payload) ≡ some (listed s scopes)

  pub check_payload-IsOf :
      (payload : Claims) (scopes required : List String) (tenant_id : Option String)
      → IsOf payload scopes
      → check_payload service required tenant_id payload ≡ (
          if asks_other tenant_id user.tenant_id
          then auth_error tenant_mismatch
          else if all_listed required scopes
          then ok user
          else auth_error missing_scope)
  unfolding check_payload
  check_payload-IsOf payload scopes required tenant_id of_user = rw of_user.tenant (
      rw of_user.subject (
        rw (missing_scopes-unlisted required (Dict.lookup "scopes" payload) scopes of_user.granted)
          (rw user_of-known (
            rw (if_none_missing-unlisted required scopes (ok user))
              (rw (other_tenant-asks_other tenant_id user.tenant_id) refl)))))

  pub access-IsOf :
      (now exp : ℕ) (iss aud jti : String)
      → IsOf (access_claims user now exp iss aud jti) user.scopes
  unfolding access_claims Dict.lookup in_scopes
  access-IsOf now exp iss aud jti = record {
    tenant = refl;
    subject = refl;
    granted = λ s. ap some (among_items-scope_items s user.scopes);
  }

  pub refresh-IsOf :
      (now exp : ℕ) (iss aud jti : String) → IsOf (refresh_claims user now exp iss aud jti) []
  unfolding refresh_claims Dict.lookup in_scopes
  refresh-IsOf now exp iss aud jti = record { tenant = refl; subject = refl; granted = λ s. refl }
