-- ===== src/RateLimiter/Steps.antt =====
-- One decision of each algorithm, as arithmetic.
use native.Mathlib.Nat.{lt-div-mul-add, div-mul-le_self, mul-le-mul_right}
use lbpr.Prelude.{
  leb, leb→le, le→leb, leb-eq-false, Bool-cases, inl, inr, ◌≤◌, ◌<◌, ℕ, ◌+◌, ◌-◌, ◌*◌, min, ◌≡◌,
  arith, some, false,
}
use lbpr.RateLimiter.Policy.{Policy}
use lbpr.RateLimiter.Bucket.{token_state, leaky_state}
use lbpr.RateLimiter.Service.{capacity, price, token_step, leaky_step, ceil_div}

module _ (ticks : ℕ) where
  -- What a token bucket holds at a time, after the refill.
  abbrev pub refilled : Policy → ℕ → ℕ → ℕ → ℕ
  refilled p now tokens last = min (capacity ticks p) (tokens + (now - last) * p.rate)

  -- A leaky bucket at level `capacity - tokens` decides as a token bucket with `tokens` does.
  pub token_step-eq-leaky_step :
      (p : Policy) (cost now tokens level last : ℕ)
      → tokens + level ≡ capacity ticks p
      → (token_step ticks p cost now tokens last).1 ≡ (leaky_step ticks p cost now level last).1
  unfolding token_step leaky_step
  token_step-eq-leaky_step p cost now tokens level last h = ground arith

-- `math.ceil`: the least number of divisors that covers the dividend.
pub ceil_div-mul : (a b : ℕ) → 0 < b → a ≤ ceil_div a b * b
unfolding ceil_div
ceil_div-mul a b h = omega (arith, lt-div-mul-add {a = a + (b - 1)} h)

pub mul-lt_of_lt-ceil_div : (n a b : ℕ) → 0 < b → n < ceil_div a b → n * b < a
unfolding ceil_div
mul-lt_of_lt-ceil_div n a b h less =
    omega (arith, div-mul-le_self (a + (b - 1)) b, mul-le-mul_right b less)

-- the wait that a denial reports: `n` seconds suffice exactly from there on
pub wait_exact :
    (price refilled capacity ticks rate n : ℕ)
    → 0 < ticks * rate
    → price ≤ capacity
    → refilled < price
    → leb price (min capacity (refilled + n * ticks * rate))
      ≡ leb (ceil_div (price - refilled) (ticks * rate)) n
wait_exact price refilled capacity ticks rate n pos fits short =
    let r : ℕ = ceil_div (price - refilled) (ticks * rate) in
    elim (Bool-cases (leb r n)) [
      | inl long ↦ rw long (
          le→leb _ _ (
            omega (
              arith,
              ceil_div-mul (price - refilled) (ticks * rate) pos,
              mul-le-mul_right (ticks * rate) (leb→le _ _ long),
            )))
      | inr early ↦ rw early (
          leb-eq-false _ _ (
            omega (
              arith,
              mul-lt_of_lt-ceil_div n (price - refilled) (ticks * rate) pos (ground arith),
            )))
    ]

-- The two branches of each decision, as equations.
module _ (ticks : ℕ) (p : Policy) (cost now : ℕ) where
  pub allowed-token_step :
      (tokens last : ℕ)
      → (token_step ticks p cost now tokens last).1.allowed
        ≡ leb (price ticks p cost) (refilled ticks p now tokens last)
  unfolding token_step
  allowed-token_step tokens last = ground arith

  pub token_step_granted :
      (tokens last : ℕ)
      → price ticks p cost ≤ refilled ticks p now tokens last
      → (token_step ticks p cost now tokens last).0
        ≡ token_state (refilled ticks p now tokens last - price ticks p cost) now
  unfolding token_step
  token_step_granted tokens last enough = ground arith

  pub token_step_denied :
      (tokens last : ℕ)
      → refilled ticks p now tokens last < price ticks p cost
      → (token_step ticks p cost now tokens last).0
        ≡ token_state (refilled ticks p now tokens last) now
  unfolding token_step
  token_step_denied tokens last short = ground arith

  pub answer_denied :
      (tokens last : ℕ)
      → refilled ticks p now tokens last < price ticks p cost
      → let d = (token_step ticks p cost now tokens last).1 in
        (d.allowed ≡ false)
        × (d.retry_after
            ≡ some
                (ceil_div (price ticks p cost - refilled ticks p now tokens last) (ticks * p.rate)))
  unfolding token_step
  answer_denied tokens last short = ground arith

  pub denied_of_wait :
      (tokens last wait : ℕ)
      → (token_step ticks p cost now tokens last).1.retry_after ≡ some wait
      → (refilled ticks p now tokens last < price ticks p cost)
        × (wait ≡ ceil_div (price ticks p cost - refilled ticks p now tokens last) (ticks * p.rate))
  unfolding token_step
  denied_of_wait tokens last wait e = ground arith

  pub leaky_step_granted :
      (level last : ℕ)
      → let left : ℕ = level - (now - last) * p.rate in
        left + price ticks p cost ≤ capacity ticks p
        → (leaky_step ticks p cost now level last).0 ≡ leaky_state (left + price ticks p cost) now
  unfolding leaky_step
  leaky_step_granted level last enough = ground arith

  pub leaky_step_denied :
      (level last : ℕ)
      → let left : ℕ = level - (now - last) * p.rate in
        capacity ticks p < left + price ticks p cost
        → (leaky_step ticks p cost now level last).0 ≡ leaky_state left now
  unfolding leaky_step
  leaky_step_denied level last short = ground arith
