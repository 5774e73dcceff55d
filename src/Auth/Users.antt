-- ===== src/Auth/Users.antt =====
-- components/authservice/models.py: `PasswordHasher` and `InMemoryUserRepo`, and the port of
-- contracts.py that the repository serves. The functions of Python that the hasher calls are
-- fields of `HashLibs`.
use Prim.Native.Char.{Char, code}
use Prim.Native.String.{◌++◌ as join_text, count}
use lbpr.Prelude.{
  ℕ, String, Bool, false, Option, none, some, List, [], ◌∷◌, str_eq, ltb, if◌then◌else◌,
}
use lbpr.Dict
use lbpr.Dict.{Dict}
use lbpr.Text.{is_space}
use lbpr.Text.Parts.{split_on}
use lbpr.Text.Strip.{strip}
use lbpr.Auth.Contracts.{User}

-- `pbkdf2 password salt iterations` is the key in hexadecimal; none means that it raises, as for
-- no iterations. `int_of` is `int(s)`, none for a ValueError.
pub record HashLibs : Type 0 where
  pub pbkdf2 : String → String → ℕ → Option String
  pub str_of : ℕ → String
  pub int_of : String → Option ℕ

abbrev pub dollar : Char
dollar = "$"

abbrev pub with_dollar : String → String → String
with_dollar a b = join_text a (String.◌∷◌ dollar b)

-- f"pbkdf2_sha256${self.iterations}${salt}${dk.hex()}"
unfoldable pub encoded_of : HashLibs → ℕ → String → String → String
encoded_of libs iterations salt key =
    with_dollar "pbkdf2_sha256" (with_dollar (libs.str_of iterations) (with_dollar salt key))

abbrev pub hashed : HashLibs → ℕ → String → Option String → Option String
hashed libs iterations salt none = none
hashed libs iterations salt (some key) = some (encoded_of libs iterations salt key)

unfoldable pub hash : HashLibs → ℕ → String → String → Option String
unfolding encoded_of
hash libs iterations password salt =
    hashed libs iterations salt (libs.pbkdf2 password salt iterations)

abbrev pub same_key : Option String → String → Bool
same_key none hex_dk = false
same_key (some key) hex_dk = str_eq key hex_dk

abbrev pub key_matches : HashLibs → String → String → Option ℕ → String → Bool
key_matches libs password salt none hex_dk = false
key_matches libs password salt (some n) hex_dk = same_key (libs.pbkdf2 password salt n) hex_dk

-- Whatever is raised, the unpacking of other than four parts included, is False.
unfoldable pub verify_parts : HashLibs → String → List String → Bool
verify_parts libs password (a ∷ iters ∷ salt ∷ hex_dk ∷ []) =
    key_matches libs password salt (libs.int_of iters) hex_dk
verify_parts libs password (a ∷ b ∷ c ∷ d ∷ e ∷ rest) = false
verify_parts libs password (a ∷ b ∷ c ∷ []) = false
verify_parts libs password (a ∷ b ∷ []) = false
verify_parts libs password (a ∷ []) = false
verify_parts libs password [] = false

unfoldable pub verify_password : HashLibs → String → String → Bool
unfolding verify_parts
verify_password libs password encoded = verify_parts libs password (split_on (code dollar) encoded)

pub record UserRecord : Type 0 where
  pub user : User
  pub pw : String
  pub salt : String

pub record Repo : Type 0 where
  pub users_by_email : Dict UserRecord
  pub users_by_id : Dict UserRecord

-- f"{tenant_id}:{email}"
unfoldable pub salt_of : String → String → String
salt_of tenant_id email = join_text tenant_id (join_text ":" email)

-- the user that pydantic makes of the arguments, whose email it strips
abbrev pub stripped : User → User
stripped args = record args { email = strip is_space args.email }

-- `User(...)`; none is a ValidationError, for an email of less than 3 characters
unfoldable pub user_model : User → Option User
unfolding strip is_space
user_model args = if ltb (count (strip is_space args.email)) 3 then none else some (stripped args)

-- The keys are the arguments, as they were given.
abbrev pub put_user : User → String → Option String → Option User → Repo → Option Repo
put_user args salt none made repo = none
put_user args salt (some pw) none repo = none
put_user args salt (some pw) (some user) repo = some (record {
  users_by_email =
      Dict.insert args.email (record { user = user; pw = pw; salt = salt }) repo.users_by_email;
  users_by_id = Dict.insert args.id (record { user = user; pw = pw; salt = salt }) repo.users_by_id;
})

-- `args` are the arguments, the password apart; none is an exception of the hasher or a
-- ValidationError, before anything is stored.
unfoldable pub add_user : HashLibs → ℕ → User → String → Repo → Option Repo
unfolding hash salt_of user_model
add_user libs iterations args password repo =
    put_user args (salt_of args.tenant_id args.email)
      (hash libs iterations password (salt_of args.tenant_id args.email)) (user_model args) repo

abbrev pub if_verified : HashLibs → String → Option UserRecord → Option User
if_verified libs password none = none
if_verified libs password (some rec) =
    if verify_password libs password rec.pw then some rec.user else none

unfoldable pub get_user_by_credentials : HashLibs → Repo → String → String → Option User
unfolding verify_password
get_user_by_credentials libs repo email password =
    if_verified libs password (Dict.lookup email repo.users_by_email)

abbrev pub user_in : Option UserRecord → Option User
user_in none = none
user_in (some rec) = some rec.user

unfoldable pub get_user_by_id : Repo → String → Option User
get_user_by_id repo user_id = user_in (Dict.lookup user_id repo.users_by_id)

-- `UserRepoPort`
pub record UserRepoPort : Type 0 where
  pub by_credentials : String → String → Option User
  pub by_id : String → Option User

unfoldable pub repo_port : HashLibs → Repo → UserRepoPort
unfolding get_user_by_credentials get_user_by_id
repo_port libs repo = record {
  by_credentials = get_user_by_credentials libs repo;
  by_id = get_user_by_id repo;
}
