-- ===== src/Auth/Passwords.antt =====
-- Which passwords `PasswordHasher.verify` accepts for what `hash` made.
use Prim.Native.Char.{code}
use lbpr.Prelude.{
  ℕ, suc, ◌+◌, ◌<◌, String, ◌≡◌, refl, ap, ◌∙◌, Bool, true, false, none, some, List, [], ◌∷◌,
  length, ltb, arith, if◌then◌else◌, Bool-cases, inl, inr,
}
use Prim.Native.String.{count}
use lbpr.Text.{is_space}
use lbpr.Text.Strip.{strip}
use lbpr.Dict
use lbpr.Dict.{lookup-insert_self}
use lbpr.Text.Parts.{
  split_on, has_char, count_char, split_on-append, split_on-none, length-split_on,
  count_char-append, count_char-has_char,
}
use lbpr.Auth.Contracts.{User}
use lbpr.Auth.Users.{
  HashLibs, dollar, with_dollar, encoded_of, hash, verify_parts, verify_password, same_key, Repo,
  UserRecord, salt_of, add_user, get_user_by_credentials, get_user_by_id, if_verified, user_in,
  stripped, user_model,
}

-- decimal and hexadecimal numbers have digits only, and `int` reads what `str` prints
pub record HashLaws (libs : HashLibs) (n : ℕ) : Type 0 where
  pub decimal : has_char (code dollar) (libs.str_of n) ≡ false
  pub hexadecimal :
      (password salt key : String)
      → libs.pbkdf2 password salt n ≡ some key
      → has_char (code dollar) key ≡ false
  pub read : libs.int_of (libs.str_of n) ≡ some n

split-encoded :
    (a b c d : String)
    → has_char (code dollar) a ≡ false
    → has_char (code dollar) b ≡ false
    → has_char (code dollar) c ≡ false
    → has_char (code dollar) d ≡ false
    → split_on (code dollar) (with_dollar a (with_dollar b (with_dollar c d))) ≡ a ∷ b ∷ c ∷ d ∷ []
split-encoded a b c d ha hb hc hd =
    split_on-append (code dollar) dollar a (with_dollar b (with_dollar c d)) refl ha
    ∙ ap (λ ws. a ∷ ws)
        (split_on-append (code dollar) dollar b (with_dollar c d) refl hb
          ∙ ap (λ ws. b ∷ ws)
              (split_on-append (code dollar) dollar c d refl hc
                ∙ ap (λ ws. c ∷ ws) (split_on-none (code dollar) d hd)))

verify_parts-many :
    (libs : HashLibs) (password : String) (parts : List String)
    → 4 < length parts
    → verify_parts libs password parts ≡ false
unfolding verify_parts
verify_parts-many libs password [] h = refl
verify_parts-many libs password (a ∷ []) h = refl
verify_parts-many libs password (a ∷ b ∷ []) h = refl
verify_parts-many libs password (a ∷ b ∷ c ∷ []) h = refl
verify_parts-many libs password (a ∷ b ∷ c ∷ d ∷ []) h = absurd (omega arith)
verify_parts-many libs password (a ∷ b ∷ c ∷ d ∷ e ∷ rest) h = refl

some-inj : {A : Type 0} {a b : A} → some a ≡ some b → a ≡ b
some-inj h = cc

if-if :
    (b c : Bool) {A : Type 0} (x y : A)
    → (if (if b then false else c) then x else y) ≡ (if b then y else if c then x else y)
if-if true c x y = refl
if-if false c x y = refl

count_char-with_dollar :
    (a b : String)
    → count_char (code dollar) (with_dollar a b)
      ≡ suc (count_char (code dollar) a + count_char (code dollar) b)
unfolding count_char
count_char-with_dollar a b = count_char-append (code dollar) a (String.◌∷◌ dollar b) ∙ omega arith

-- A dollar sign in the salt makes at least five parts.
length-split-encoded :
    (a b c d : String)
    → has_char (code dollar) c ≡ true
    → 4 < length (split_on (code dollar) (with_dollar a (with_dollar b (with_dollar c d))))
length-split-encoded a b c d h =
    let some_c : 0 < count_char (code dollar) c =
      ground (arith, count_char-has_char (code dollar) c) in
    omega (
      arith,
      length-split_on (code dollar) (with_dollar a (with_dollar b (with_dollar c d))),
      count_char-with_dollar a (with_dollar b (with_dollar c d)),
      count_char-with_dollar b (with_dollar c d),
      count_char-with_dollar c d,
    )

module _ (libs : HashLibs) (iterations : ℕ) where
  abbrev record_of : User → String → UserRecord
  record_of args key = record {
    user = stripped args;
    pw = encoded_of libs iterations (salt_of args.tenant_id args.email) key;
    salt = salt_of args.tenant_id args.email;
  }

  -- what `add_user` stores
  abbrev pub with_user : User → String → Repo → Repo
  with_user args key repo = record {
    users_by_email = Dict.insert args.email (record_of args key) repo.users_by_email;
    users_by_id = Dict.insert args.id (record_of args key) repo.users_by_id;
  }

module _ (libs : HashLibs) (iterations : ℕ) (laws : HashLaws libs iterations) where
  verify_parts-four :
      (other salt key : String)
      → verify_parts libs other ("pbkdf2_sha256" ∷ libs.str_of iterations ∷ salt ∷ key ∷ [])
        ≡ same_key (libs.pbkdf2 other salt iterations) key
  unfolding verify_parts
  verify_parts-four other salt key = rw laws.read refl

  verify_password-encoded_of :
      (password other salt key : String)
      → libs.pbkdf2 password salt iterations ≡ some key
      → verify_password libs other (encoded_of libs iterations salt key) ≡ (
          if has_char (code dollar) salt
          then false
          else same_key (libs.pbkdf2 other salt iterations) key)
  unfolding verify_password encoded_of has_char
  verify_password-encoded_of password other salt key made =
      elim (Bool-cases (has_char (code dollar) salt)) [
        | inl there ↦ rw there (
            verify_parts-many libs other
              (split_on (code dollar) (encoded_of libs iterations salt key))
              (length-split-encoded "pbkdf2_sha256" (libs.str_of iterations) salt key there))
        | inr free ↦ rw free (
            ap (verify_parts libs other) (
              split-encoded "pbkdf2_sha256" (libs.str_of iterations) salt key refl laws.decimal free
                (laws.hexadecimal password salt key made))
            ∙ verify_parts-four other salt key)
      ]

  add_user-eq :
      (args : User) (password key : String) (repo added : Repo)
      → libs.pbkdf2 password (salt_of args.tenant_id args.email) iterations ≡ some key
      → add_user libs iterations args password repo ≡ some added
      → with_user libs iterations args key repo ≡ added
  unfolding add_user hash user_model
  add_user-eq args password key repo added made done =
      elim (Bool-cases (ltb (count (strip is_space args.email)) 3)) [
        | inl short ↦ let k = rw (made, short) at done in cc
        | inr long ↦ some-inj (rw (made, long) at done)
      ]

  found_by_id :
      (args : User) (key : String) (repo : Repo)
      → get_user_by_id (with_user libs iterations args key repo) args.id ≡ some (stripped args)
  unfolding get_user_by_id
  found_by_id args key repo =
      ap user_in (lookup-insert_self args.id (record_of libs iterations args key) repo.users_by_id)

  found_by_email :
      (args : User) (key : String) (repo : Repo) (other : String)
      → get_user_by_credentials libs (with_user libs iterations args key repo) args.email other ≡ (
          if verify_password libs other
            (encoded_of libs iterations (salt_of args.tenant_id args.email) key)
          then some (stripped args)
          else none)
  unfolding get_user_by_credentials
  found_by_email args key repo other =
      ap (if_verified libs other)
        (lookup-insert_self args.email (record_of libs iterations args key) repo.users_by_email)

  -- A user who was added with a password that has a key is found by their id, and, by the email that
  -- was given, with exactly the passwords that have the same key under the salt; but with no password
  -- at all if there is a dollar sign in the salt, which is the tenant's id and the email. What is
  -- found is the user with the email stripped of white space at its ends.
  pub get_user-add_user :
      (args : User) (password other key : String) (repo added : Repo)
      → libs.pbkdf2 password (salt_of args.tenant_id args.email) iterations ≡ some key
      → add_user libs iterations args password repo ≡ some added
      → (get_user_by_id added args.id ≡ some (stripped args))
        × (get_user_by_credentials libs added args.email other ≡ (
            if has_char (code dollar) (salt_of args.tenant_id args.email)
            then none
            else if same_key (libs.pbkdf2 other (salt_of args.tenant_id args.email) iterations) key
            then some (stripped args)
            else none))
  get_user-add_user args password other key repo added made done =
      let stored = add_user-eq args password key repo added made done in
      rw (← stored) (
        found_by_id args key repo,
        found_by_email args key repo other
            ∙ ap (λ b. if b then some (stripped args) else none)
                (verify_password-encoded_of password other (salt_of args.tenant_id args.email) key
                  made)
            ∙ if-if (has_char (code dollar) (salt_of args.tenant_id args.email))
                (same_key (libs.pbkdf2 other (salt_of args.tenant_id args.email) iterations) key)
                (some (stripped args)) none,
      )
