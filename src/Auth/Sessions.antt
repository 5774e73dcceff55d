-- ===== src/Auth/Sessions.antt =====
-- What becomes of the tokens that a login issues.
use lbpr.Prelude.{
  ℕ, ◌+◌, String, Bool, true, false, Option, some, List, [], ◌≡◌, refl, ap, ◌∙◌, leb, if◌then◌else◌,
  Bool-cases, inl, inr,
}
use lbpr.Prelude.Int.{pos}
use lbpr.Dict
use lbpr.Value.{Value}
use lbpr.Auth.Contracts.{
  User, Claims, access_claims, refresh_claims, IssuedTokens, LoginRequest, invalid_token,
  AuthConfig,
}
use lbpr.Auth.Signer.{claims_of, Libs, Signer, sign}
use lbpr.Auth.Grants.{verdict, IsOf, user_of-known, check_payload-IsOf, access-IsOf, refresh-IsOf}
use lbpr.Auth.Signing.{Laws, ReadsBack, verify-sign}
use lbpr.Auth.Users.{UserRepoPort}
use lbpr.Auth.Service.{
  hs256, ok, auth_error, Service, Ids, refresh_headers, access_of, refresh_of, issue_for_user,
  login, login_user, refresh, refresh_payload, issue_if_ok, verify_access, verify_checked,
}

either_way : {A : Type 0} {a : A} (b : Bool) → (if b then a else a) ≡ a
either_way true = refl
either_way false = refl

abbrev pub service_of :
    {Bytes : Type 0} → Libs Bytes → Signer Bytes → UserRepoPort → AuthConfig → Service
service_of libs signer repo cfg = record { user_repo = repo; signer = hs256 libs signer; cfg = cfg }

module _ {Bytes : Type 0} (libs : Libs Bytes) (laws : Laws libs) (signer : Signer Bytes)
    (repo : UserRepoPort) (cfg : AuthConfig) (user : User) (now : ℕ) (ids : Ids)
    (req : LoginRequest) (matches : repo.by_credentials req.email req.password ≡ some user)
    (active : user.is_active ≡ true) (known : repo.by_id user.id ≡ some user) where
  login-issues :
      login (service_of libs signer repo cfg) now ids req
      ≡ ok (issue_for_user (service_of libs signer repo cfg) now ids user)
  unfolding login
  login-issues = ap (login_user (service_of libs signer repo cfg) now ids) matches ∙ rw active refl

  verify_access-signed :
      (payload headers : Claims) (scopes : List String) (exp later : ℕ) (required : List String)
      (tenant_id : Option String)
      → ReadsBack libs payload
      → IsOf (service_of libs signer repo cfg) user active known payload scopes
      → Dict.lookup "exp" payload ≡ some (Value.int (pos exp))
      → verify_access
          (service_of libs signer repo cfg)
          later
          (sign libs signer payload headers)
          required
          tenant_id
        ≡ verdict user scopes exp later required tenant_id
  unfolding verify_access hs256
  verify_access-signed payload headers scopes exp later required tenant_id back of_user at_exp =
      ap (verify_checked (service_of libs signer repo cfg) required tenant_id)
        (verify-sign libs laws signer later exp payload headers back at_exp)
      ∙ elim (Bool-cases (leb exp later)) [
        | inl late ↦ rw late refl
        | inr early ↦ rw early (
            check_payload-IsOf (service_of libs signer repo cfg) user active known payload scopes
              required tenant_id of_user)
      ]

  refresh-signed :
      (payload headers : Claims) (exp checked later : ℕ) (new_ids : Ids)
      → ReadsBack libs payload
      → Dict.lookup "exp" payload ≡ some (Value.int (pos exp))
      → refresh
          (service_of libs signer repo cfg)
          checked
          later
          new_ids
          (record { refresh_token = sign libs signer payload headers })
        ≡ (if leb exp checked
            then auth_error invalid_token
            else refresh_payload
                (service_of libs signer repo cfg)
                later
                new_ids
                (claims_of payload))
  unfolding refresh hs256
  refresh-signed payload headers exp checked later new_ids back at_exp =
      ap (refresh_payload (service_of libs signer repo cfg) later new_ids)
        (verify-sign libs laws signer checked exp payload headers back at_exp)
      ∙ elim (Bool-cases (leb exp checked)) [ inl late ↦ rw late refl | inr early ↦ rw early refl ]

  -- An active user who logs in gets an access token that is accepted until it expires for the
  -- user's tenant and for the scopes that the user has, each of them and no other, and refused
  -- with the error that says why otherwise.
  pub verify_access-login :
      ReadsBack libs (access_of (service_of libs signer repo cfg) user now ids.0)
      → (tokens : IssuedTokens) × (login (service_of libs signer repo cfg) now ids req ≡ ok tokens)
        × ((later : ℕ) (required : List String) (tenant_id : Option String)
            → verify_access
                (service_of libs signer repo cfg)
                later
                tokens.access_token
                required
                tenant_id
              ≡ verdict user user.scopes (now + cfg.access_ttl_seconds) later required tenant_id)
  unfolding access_claims Dict.lookup issue_for_user hs256
  verify_access-login back =
      let exp = now + cfg.access_ttl_seconds in
      (
        issue_for_user (service_of libs signer repo cfg) now ids user,
        login-issues,
        λ later required tenant_id.
            verify_access-signed (access_of (service_of libs signer repo cfg) user now ids.0) []
              user.scopes exp later required tenant_id back
              (access-IsOf (service_of libs signer repo cfg) user active known now exp cfg.issuer
                cfg.audience ids.0)
              refl,
      )

  -- The refresh token of a login is traded for new tokens of the same user until it expires, by the
  -- signer's clock, and refused from then on, whatever the clock of the service says; its access
  -- token is never taken for a refresh token.
  pub refresh-login :
      ReadsBack libs (access_of (service_of libs signer repo cfg) user now ids.0)
      → ReadsBack libs (refresh_of (service_of libs signer repo cfg) user now ids.1)
      → (tokens : IssuedTokens) × (login (service_of libs signer repo cfg) now ids req ≡ ok tokens)
        × ((checked later : ℕ) (new_ids : Ids)
            → (refresh
                  (service_of libs signer repo cfg)
                  checked
                  later
                  new_ids
                  (record { refresh_token = tokens.refresh_token })
                ≡ (if leb (now + cfg.refresh_ttl_seconds) checked
                    then auth_error invalid_token
                    else ok (issue_for_user (service_of libs signer repo cfg) later new_ids user)))
              × (refresh
                    (service_of libs signer repo cfg)
                    checked
                    later
                    new_ids
                    (record { refresh_token = tokens.access_token })
                  ≡ auth_error invalid_token))
  unfolding access_claims refresh_claims Dict.lookup issue_for_user hs256
  refresh-login access_back refresh_back = (
    issue_for_user (service_of libs signer repo cfg) now ids user,
    login-issues,
    λ checked later new_ids. (
      refresh-signed (refresh_of (service_of libs signer repo cfg) user now ids.1) refresh_headers
            (now + cfg.refresh_ttl_seconds) checked later new_ids refresh_back refl
          ∙ ap
              (λ o.
                if leb (now + cfg.refresh_ttl_seconds) checked
                then auth_error invalid_token
                else issue_if_ok (service_of libs signer repo cfg) later new_ids o)
              (user_of-known (service_of libs signer repo cfg) user active known),
      refresh-signed (access_of (service_of libs signer repo cfg) user now ids.0) []
            (now + cfg.access_ttl_seconds) checked later new_ids access_back refl
          ∙ either_way (leb (now + cfg.access_ttl_seconds) checked),
    ),
  )

  -- The refresh token of a login is also accepted as an access token until it expires, as one
  -- without scopes: where a scope is required it is refused, where none is the user is let in.
  pub verify_access-refresh_token :
      ReadsBack libs (refresh_of (service_of libs signer repo cfg) user now ids.1)
      → (tokens : IssuedTokens) × (login (service_of libs signer repo cfg) now ids req ≡ ok tokens)
        × ((later : ℕ) (required : List String) (tenant_id : Option String)
            → verify_access
                (service_of libs signer repo cfg)
                later
                tokens.refresh_token
                required
                tenant_id
              ≡ verdict user [] (now + cfg.refresh_ttl_seconds) later required tenant_id)
  unfolding refresh_claims Dict.lookup issue_for_user hs256
  verify_access-refresh_token back =
      let exp = now + cfg.refresh_ttl_seconds in
      (
        issue_for_user (service_of libs signer repo cfg) now ids user,
        login-issues,
        λ later required tenant_id.
            verify_access-signed (refresh_of (service_of libs signer repo cfg) user now ids.1)
              refresh_headers [] exp later required tenant_id back
              (refresh-IsOf (service_of libs signer repo cfg) user active known now exp cfg.issuer
                cfg.audience ids.1)
              refl,
      )
