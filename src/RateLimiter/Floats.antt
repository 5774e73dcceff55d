-- ===== src/RateLimiter/Floats.antt =====
-- Where the floats of components/ratelimiter/service.py are the exact numbers of the model. With a
-- period of a power of two seconds, and times on a grid of a power of two to the second, every amount
-- and every time is a multiple of a power of two; below 2 ^ 52 of them, a float holds it exactly, sums
-- and differences are exact, a refill that would be rounded is above the burst, and the rounding of a
-- wait does not cross a whole second. For other policies, a period of 3 or 29 seconds for instance,
-- rounding changes what the source answers.
use Prim.Native.Nat.{◌^◌}
use lbpr.Prelude.{ℕ, ◌<◌, ◌≡◌}
use lbpr.RateLimiter.Policy.{Policy}
use lbpr.RateLimiter.Service.{capacity, price}

pub record IsExact (ticks : ℕ) (p : Policy) : Type 0 where
  pub period_bits : ℕ
  pub period : p.period ≡ 2 ^ period_bits
  pub tick_bits : ℕ
  pub tick : ticks ≡ 2 ^ tick_bits
  pub small_rate : p.rate < 2 ^ 52
  pub small_burst : capacity ticks p < 2 ^ 52

-- The time and the cost of a call are of that size, too.
abbrev pub IsSmall : ℕ → Policy → ℕ → ℕ → Type 0
IsSmall ticks p cost now = (price ticks p cost < 2 ^ 52) × (now < 2 ^ 52)
