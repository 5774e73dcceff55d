-- ===== src/RateLimiter/Policy.antt =====
-- components/ratelimiter/contracts.py: `Policy`, `ConsumeResult` and `QuotaSnapshot`.
-- The field `metadata` of a policy is left out: nothing reads it. `str.upper` and `re.search` are
-- Python's, over Unicode and regular expressions, and are the parameter `TextOps`.
use lbpr.Prelude.{
  ℕ, ◌<◌, String, Bool, false, Option, none, some, List, [], ◌∷◌, map, str_eq, ◌||◌, not,
  if◌then◌else◌,
}

pub data Algorithm : Type 0 where
  token_bucket leaky_bucket : Algorithm

pub data Scope : Type 0 where
  ip user tenant global custom : Scope

pub record Policy : Type 0 where
  pub name : String
  pub algorithm : Algorithm
  pub rate : ℕ
  pub period : ℕ
  pub burst : ℕ
  pub scope : Scope
  pub path_pattern : String
  pub methods : Option (List String)
  pub cost : ℕ

-- The fields that pydantic's `PositiveInt` validates.
pub record IsPositive (p : Policy) : Type 0 where
  pub rate : 0 < p.rate
  pub period : 0 < p.period
  pub burst : 0 < p.burst
  pub cost : 0 < p.cost

-- Amounts of tokens are in units that the service fixes (see RateLimiter/Service.antt).
pub record ConsumeResult : Type 0 where
  pub allowed : Bool
  pub remaining : ℕ
  pub retry_after : Option ℕ
  pub policy : String
  pub key : String

pub record QuotaSnapshot : Type 0 where
  pub key : String
  pub tokens : Option ℕ
  pub last_refill_ts : Option ℕ
  pub level : Option ℕ
  pub algorithm : Algorithm

pub record TextOps : Type 0 where
  pub upper : String → String
  -- `re.search(pattern, text) is not None`
  pub re_search : String → String → Bool

-- `x in l`
unfoldable pub contains : String → List String → Bool
contains x [] = false
contains x (y ∷ l) = str_eq y x || contains x l

-- `self.methods and method.upper() not in self.methods`
excludes : Option (List String) → String → Bool
unfolding contains
excludes none m = false
excludes (some []) m = false
excludes (some (x ∷ l)) m = not (contains m (x ∷ l))

module _ (ops : TextOps) where
  -- the field validator of `methods`
  unfoldable pub normalize_methods : Option (List String) → Option (List String)
  normalize_methods none = none
  normalize_methods (some l) = some (map ops.upper l)

  unfoldable pub matches : Policy → String → String → Bool
  unfolding excludes
  matches p method path =
      if excludes p.methods (ops.upper method) then false else ops.re_search p.path_pattern path
