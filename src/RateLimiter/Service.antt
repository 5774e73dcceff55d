-- ===== src/RateLimiter/Service.antt =====
-- components/ratelimiter/service.py: `RateLimiterService`. The class has `self._now`; here the time
-- of a call is an argument.
--
-- Numbers. The source computes with floats. The model computes the same expressions exactly: time
-- is in ticks, `ticks` of them to a second, and an amount of tokens is in units, `period * ticks` of
-- them to a token. Then `elapsed * rate_per_sec` is `elapsed * rate`, a natural number, and so is
-- every amount that the service stores. `max(0.0, x - y)` is the truncated difference. RateLimiter/Floats
-- says where the floats are these numbers; elsewhere they are rounded, and the model is not.
use Prim.Native.String.{◌++◌}
use lbpr.Prelude.{
  ℕ, ◌+◌, ◌-◌, ◌*◌, ◌/◌, min, String, Bool, true, false, Option, none, some, leb, if◌then◌else◌,
}
use lbpr.Prelude.Int.{ℤ, pos, pos_part, sub_ℕ, ◌-ℤ◌, leb_ℤ}
use lbpr.RateLimiter.Policy.{
  Policy, Algorithm, token_bucket, leaky_bucket, ConsumeResult, QuotaSnapshot,
}
use lbpr.RateLimiter.Bucket.{
  Bucket, empty, token_state, leaky_state, is_missing, Outcome, ok, subscript, ◌>>=◌,
}
use lbpr.RateLimiter.Store
use lbpr.RateLimiter.Store.{Store}

abbrev pub algorithm_name : Algorithm → String
algorithm_name token_bucket = "token_bucket"
algorithm_name leaky_bucket = "leaky_bucket"

unfoldable pub bucket_key : String → Policy → String
bucket_key key p =
    "ratelimiter:" ++ (algorithm_name p.algorithm ++ (":" ++ (p.name ++ (":" ++ key))))

pub record Decision : Type 0 where
  pub allowed : Bool
  pub remaining : ℕ
  pub retry_after : Option ℕ

-- `math.ceil(a / b)` for a positive `b`
unfoldable pub ceil_div : ℕ → ℕ → ℕ
ceil_div a b = (a + (b - 1)) / b

unfoldable pub to_result : String → Policy → Decision → ConsumeResult
to_result key p d = record {
  allowed = d.allowed;
  remaining = d.remaining;
  retry_after = d.retry_after;
  policy = p.name;
  key = key;
}

module _ (ticks : ℕ) where
  -- one token, in units
  abbrev pub unit : Policy → ℕ
  unit p = p.period * ticks

  abbrev pub capacity : Policy → ℕ
  capacity p = p.burst * (p.period * ticks)

  abbrev pub price : Policy → ℕ → ℕ
  price p cost = cost * (p.period * ticks)

  -- `_consume_token_bucket`, from the refill on
  unfoldable pub token_step : Policy → ℕ → ℕ → ℕ → ℕ → Bucket × Decision
  token_step p cost now tokens last =
      let refilled : ℕ = min (capacity p) (tokens + (now - last) * p.rate) in
      if leb (price p cost) refilled
      then (
        token_state (refilled - price p cost) now,
        record { allowed = true; remaining = refilled - price p cost; retry_after = none },
      )
      else (
        token_state refilled now,
        record {
          allowed = false;
          remaining = refilled;
          retry_after = some (ceil_div (price p cost - refilled) (ticks * p.rate));
        },
      )

  -- the closure `upd` of `_consume_token_bucket`
  unfoldable pub token_update : Policy → ℕ → ℕ → Option Bucket → Outcome (Bucket × Decision)
  unfolding is_missing token_step
  token_update p cost now none = ok (token_step p cost now (capacity p) now)
  token_update p cost now (some b) =
      if is_missing (some b) then ok (token_step p cost now (capacity p) now) else do
        tokens ← subscript b.tokens
        last ← subscript b.last_refill_ts
        ok (token_step p cost now tokens last)

  -- `_consume_leaky_bucket`, from the drain on; `target_level` may be negative
  unfoldable pub leaky_step : Policy → ℕ → ℕ → ℕ → ℕ → Bucket × Decision
  leaky_step p cost now old_level last =
      let level : ℕ = old_level - (now - last) * p.rate in
      let target_level : ℤ = sub_ℕ (capacity p) (price p cost) in
      if leb (level + price p cost) (capacity p)
      then (
        leaky_state (level + price p cost) now,
        record {
          allowed = true;
          remaining = capacity p - (level + price p cost);
          retry_after = none;
        },
      )
      else (
        leaky_state level now,
        record {
          allowed = false;
          remaining = capacity p - level;
          retry_after = some (
              if leb_ℤ (pos level) target_level
              then 0
              else ceil_div (pos_part (pos level -ℤ target_level)) (ticks * p.rate));
        },
      )

  -- the closure `upd` of `_consume_leaky_bucket`
  unfoldable pub leaky_update : Policy → ℕ → ℕ → Option Bucket → Outcome (Bucket × Decision)
  unfolding is_missing leaky_step
  leaky_update p cost now none = ok (leaky_step p cost now 0 now)
  leaky_update p cost now (some b) =
      if is_missing (some b) then ok (leaky_step p cost now 0 now) else do
        level ← subscript b.level
        last ← subscript b.last_refill_ts
        ok (leaky_step p cost now level last)

  -- The third branch, `ValueError`, is for an algorithm that the type of a policy rules out.
  unfoldable pub decide_update :
      Algorithm → Policy → ℕ → ℕ → Option Bucket → Outcome (Bucket × Decision)
  decide_update token_bucket = token_update
  decide_update leaky_bucket = leaky_update

  unfoldable pub consume : String → Policy → ℕ → ℕ → Store → Outcome ConsumeResult × Store
  unfolding decide_update
  consume key p cost now s =
      let (r, s') = Store.update (bucket_key key p) (decide_update p.algorithm p cost now) s in
      ((do d ← r; ok (to_result key p d)), s')

unfoldable pub reset : String → Policy → Store → Store
reset key p s = Store.set (bucket_key key p) empty s

-- `state.get(...)` on the stored dict, or `None` where nothing or `{}` is stored
abbrev read : (Bucket → Option ℕ) → Option Bucket → Option ℕ
read field none = none
read field (some b) = field b

unfoldable pub snapshot_of : Algorithm → String → Option Bucket → QuotaSnapshot
snapshot_of token_bucket key state = record {
  key = key;
  tokens = read (λ b. b.tokens) state;
  last_refill_ts = read (λ b. b.last_refill_ts) state;
  level = none;
  algorithm = token_bucket;
}
snapshot_of leaky_bucket key state = record {
  key = key;
  tokens = none;
  last_refill_ts = read (λ b. b.last_refill_ts) state;
  level = read (λ b. b.level) state;
  algorithm = leaky_bucket;
}

unfoldable pub snapshot : String → Policy → Store → QuotaSnapshot
unfolding snapshot_of
snapshot key p s = snapshot_of p.algorithm key (Store.get (bucket_key key p) s)
