-- ===== src/Auth/Tests.antt =====
-- A user logs in and shows the tokens, over libraries that know two payloads.
use Prim.Native.Char.{code}
use lbpr.Prelude.{
  ℕ, ◌≡◌, refl, String, Bool, true, false, not, Option, none, some, List, [], ◌∷◌, str_eq, arith,
  leb, if◌then◌else◌, Bool-cases, inl, inr,
}
use lbpr.Prelude.Int.{pos}
use lbpr.Dict
use lbpr.Dict.{lookup, insert}
use lbpr.Text.Parts.{has_char, split_on}
use lbpr.Value.{Value}
use lbpr.Auth.Contracts.{
  User, Claims, access_claims, refresh_claims, AuthConfig, LoginRequest, IssuedTokens,
  invalid_token,
}
use lbpr.Auth.Signer.{
  Libs, Signer, claims_of, refused, Reason, expired, rstrip, sign, verify, repeat_char, new_signer,
  list_kids, base_headers,
}
use lbpr.Auth.Base64.{IsPadded}
use lbpr.Auth.Signing.{Laws, ReadsBack, verify-sign}
use lbpr.Auth.Forgery.{IsSigned, IsCurrent, verify-IsSigned}
use lbpr.Auth.Users.{
  HashLibs, UserRepoPort, Repo, add_user, user_model, get_user_by_id, get_user_by_credentials,
  salt_of, encoded_of, dollar, same_key,
}
use lbpr.Text.{is_space}
use lbpr.Text.Strip.{strip}
use lbpr.Auth.Passwords.{HashLaws, with_user, get_user-add_user}
use lbpr.Auth.Service.{
  ok, auth_error, hs256, Service, issue_for_user, login, refresh, verify_access,
}
use lbpr.Auth.Grants.{verdict}
use lbpr.Auth.Sessions.{service_of, verify_access-login, refresh-login, verify_access-refresh_token}
use lbpr.Auth.Access.{LetsIn, verify_access-LetsIn}

abbrev ann : User
ann = record {
  id = "u1";
  email = "ann@x";
  display_name = none;
  tenant_id = "t1";
  is_active = true;
  scopes = "read" ∷ [];
}

abbrev cfg : AuthConfig
cfg = record {
  access_ttl_seconds = 900;
  refresh_ttl_seconds = 1209600;
  issuer = "lbp3-rs";
  audience = "lbp3-clients";
}

abbrev access : Claims
access = access_claims ann 100 1000 "lbp3-rs" "lbp3-clients" "a"

abbrev renewal : Claims
renewal = refresh_claims ann 100 1209700 "lbp3-rs" "lbp3-clients" "r"

-- Bytes that are one bit.
abbrev libs : Libs Bool
libs = record {
  encode = λ s. str_eq s "refresh";
  decode = λ b. some (if b then "refresh" else "access");
  urlsafe_b64encode = λ b. if b then "AQ==" else "AA==";
  urlsafe_b64decode = λ s. some (str_eq s "AQ==");
  dumps = λ c. if Dict.contains "typ" c then "refresh" else "access";
  loads = λ s. some (if str_eq s "refresh" then renewal else access);
  hmac_sha256 = λ k b. not b;
  compare_digest = λ a b. if a then b else not b;
  int_of = λ v. elim v [ Value.int z ↦ some z | _ ↦ none ];
}

padded : (b : Bool) → IsPadded (libs.urlsafe_b64encode b)
unfolding has_char repeat_char
padded true = record {
  body = "AQ";
  padding = 2;
  shape = refl;
  no_padding = refl;
  no_dot = refl;
  short = omega arith;
  whole = refl;
}
padded false = record {
  body = "AA";
  padding = 2;
  shape = refl;
  no_padding = refl;
  no_dot = refl;
  short = omega arith;
  whole = refl;
}

restored : (b : Bool) → libs.urlsafe_b64decode (libs.urlsafe_b64encode b) ≡ some b
restored true = refl
restored false = refl

same : (b : Bool) → libs.compare_digest b b ≡ true
same true = refl
same false = refl

equal : (a b : Bool) → libs.compare_digest a b ≡ true → a ≡ b
equal true true h = refl
equal true false h = cc
equal false true h = cc
equal false false h = refl

laws : Laws libs
laws = record {
  padded = padded;
  restored = restored;
  same = same;
  equal = equal;
  whole = λ z. refl;
}

access_reads : ReadsBack libs access
unfolding access_claims lookup
access_reads = record { utf8 = refl; json = refl }

renewal_reads : ReadsBack libs renewal
unfolding refresh_claims lookup
renewal_reads = record { utf8 = refl; json = refl }

abbrev signer : Signer Bool
signer = record { secret = false; kid = some "primary" }

access_exp : lookup "exp" access ≡ some (Value.int (pos 1000))
unfolding access_claims lookup
access_exp = refl

verify-sign_example :
    verify libs signer 999 (sign libs signer access [])
    ≡ (if leb 1000 999 then refused expired else claims_of access)
verify-sign_example = verify-sign libs laws signer 999 1000 access [] access_reads access_exp

signed_token : sign libs signer access [] ≡ "AQ.AA.AQ"
unfolding sign access_claims lookup base_headers insert rstrip
signed_token = refl

accepted : verify libs signer 999 "AQ.AA.AQ" ≡ claims_of access
unfolding verify split_on access_claims lookup repeat_char
accepted = refl

verify-IsSigned_example :
    IsSigned libs signer "AQ.AA.AQ" access × IsCurrent libs 999 (lookup "exp" access)
verify-IsSigned_example = verify-IsSigned libs 999 access laws signer "AQ.AA.AQ" accepted

refused_when_changed : verify libs signer 999 "AQ.AA.AA" ≡ refused Reason.signature_mismatch
unfolding verify split_on access_claims lookup repeat_char
refused_when_changed = refl

-- Keys that tell one password from the others.
abbrev hash_libs : HashLibs
hash_libs = record {
  pbkdf2 = λ password salt n. some (if str_eq password "pw" then "11" else "00");
  str_of = λ n. "100000";
  int_of = λ s. some 100000;
}

no_dollar :
    (password salt key : String)
    → hash_libs.pbkdf2 password salt 100000 ≡ some key
    → has_char (code dollar) key ≡ false
unfolding has_char
no_dollar password salt key h = elim (Bool-cases (str_eq password "pw")) [
  | inl right ↦ let k = rw right at h in let same : "11" ≡ key = cc in rw (← same) refl
  | inr wrong ↦ let k = rw wrong at h in let same : "00" ≡ key = cc in rw (← same) refl
]

hash_laws : HashLaws hash_libs 100000
unfolding has_char
hash_laws = record { decimal = refl; hexadecimal = no_dollar; read = refl }

abbrev nobody : Repo
nobody = record { users_by_email = []; users_by_id = [] }

abbrev with_ann : Repo
with_ann = with_user hash_libs 100000 ann "11" nobody

added : add_user hash_libs 100000 ann "pw" nobody ≡ some with_ann
unfolding add_user user_model
added = refl

get_user-add_user_example :
    (get_user_by_id with_ann "u1" ≡ some ann)
    × (get_user_by_credentials hash_libs with_ann "ann@x" "pw" ≡ (
        if has_char (code dollar) (salt_of "t1" "ann@x")
        then none
        else if same_key (hash_libs.pbkdf2 "pw" (salt_of "t1" "ann@x") 100000) "11"
        then some ann
        else none))
unfolding strip is_space
get_user-add_user_example =
    get_user-add_user hash_libs 100000 hash_laws ann "pw" "pw" "11" nobody with_ann refl added

found : get_user_by_credentials hash_libs with_ann "ann@x" "pw" ≡ some ann
unfolding salt_of get_user_by_credentials encoded_of lookup insert split_on strip is_space
found = refl

known : get_user_by_id with_ann "u1" ≡ some ann
unfolding get_user_by_id lookup insert strip is_space
known = refl

abbrev request : LoginRequest
request = record { email = "ann@x"; password = "pw" }

abbrev users : UserRepoPort
users = record {
  by_credentials = get_user_by_credentials hash_libs with_ann;
  by_id = get_user_by_id with_ann;
}

abbrev ann_service : Service
ann_service = service_of libs signer users cfg

verify_access-login_example :
    (tokens : IssuedTokens) × (login ann_service 100 ("a", "r") request ≡ ok tokens)
    × ((later : ℕ) (required : List String) (tenant_id : Option String)
        → verify_access ann_service later tokens.access_token required tenant_id
          ≡ verdict ann ("read" ∷ []) 1000 later required tenant_id)
verify_access-login_example =
    verify_access-login libs laws signer users cfg ann 100 ("a", "r") request found refl known
      access_reads

refresh-login_example :
    (tokens : IssuedTokens) × (login ann_service 100 ("a", "r") request ≡ ok tokens)
    × ((checked later : ℕ) (new_ids : String × String)
        → (refresh ann_service checked later new_ids
              (record { refresh_token = tokens.refresh_token })
            ≡ (if leb 1209700 checked
                then auth_error invalid_token
                else ok (issue_for_user ann_service later new_ids ann)))
          × (refresh ann_service checked later new_ids
                (record { refresh_token = tokens.access_token })
              ≡ auth_error invalid_token))
refresh-login_example =
    refresh-login libs laws signer users cfg ann 100 ("a", "r") request found refl known
      access_reads renewal_reads

verify_access-refresh_token_example :
    (tokens : IssuedTokens) × (login ann_service 100 ("a", "r") request ≡ ok tokens)
    × ((later : ℕ) (required : List String) (tenant_id : Option String)
        → verify_access ann_service later tokens.refresh_token required tenant_id
          ≡ verdict ann [] 1209700 later required tenant_id)
verify_access-refresh_token_example =
    verify_access-refresh_token libs laws signer users cfg ann 100 ("a", "r") request found refl
      known renewal_reads

let_in : verify_access ann_service 999 "AQ.AA.AQ" ("read" ∷ []) (some "t1") ≡ ok ann
unfolding verify_access verify hs256 split_on access_claims lookup repeat_char get_user_by_id insert
    strip is_space
let_in = refl

verify_access-LetsIn_example :
    (payload : Claims) × IsSigned libs signer "AQ.AA.AQ" payload
    × IsCurrent libs 999 (lookup "exp" payload)
    × LetsIn users ("read" ∷ []) (some "t1") payload ann
verify_access-LetsIn_example =
    verify_access-LetsIn libs signer users cfg 999 "AQ.AA.AQ" ("read" ∷ []) (some "t1") ann laws
      let_in

one_kid : list_kids signer ≡ "primary" ∷ []
unfolding list_kids
one_kid = refl

no_secret : new_signer libs "" none ≡ none
unfolding new_signer
no_secret = refl
