-- ===== src/RateLimiter/Bucket.antt =====
-- The state dictionaries that components/ratelimiter/service.py keeps, one for each bucket: a dict
-- with some of the keys "tokens", "level" and "last_refill_ts". A subscript of a key that is not
-- there raises `KeyError`.
use lbpr.Prelude.{ℕ, ◌≡◌, refl, ◌⊎◌, inl, inr, Option, none, some, Bool, true, false}

pub record Bucket : Type 0 where
  pub tokens : Option ℕ
  pub level : Option ℕ
  pub last_refill_ts : Option ℕ

-- The dict `{}`, which `reset` stores.
abbrev pub empty : Bucket
empty = record { tokens = none; level = none; last_refill_ts = none }

abbrev pub token_state : ℕ → ℕ → Bucket
token_state tokens now = record { tokens = some tokens; level = none; last_refill_ts = some now }

abbrev pub leaky_state : ℕ → ℕ → Bucket
leaky_state level now = record { tokens = none; level = some level; last_refill_ts = some now }

abbrev pub is_none : Option ℕ → Bool
is_none none = true
is_none (some _) = false

abbrev pub both : Bool → Bool → Bool
both true b = b
both false b = false

-- `not curr`: no entry in the store, or an empty dict
unfoldable pub is_missing : Option Bucket → Bool
is_missing none = true
is_missing (some b) = both (is_none b.tokens) (both (is_none b.level) (is_none b.last_refill_ts))

pub data Outcome (A : Type 0) : Type 0 where
  ok : A → Outcome A
  key_error : Outcome A

infixl 5 ◌>>=◌
abbrev pub ◌>>=◌ : {A B : Type 0} → Outcome A → (A → Outcome B) → Outcome B
ok a >>= f = f a
key_error >>= f = key_error

-- `d[key]`
abbrev pub subscript : Option ℕ → Outcome ℕ
subscript none = key_error
subscript (some n) = ok n

pub Outcome-cases : {A : Type 0} (o : Outcome A) → ((a : A) × (o ≡ ok a)) ⊎ (o ≡ key_error)
Outcome-cases (ok a) = inl (a, refl)
Outcome-cases key_error = inr refl
