-- ===== src/RateLimiter/Retry.antt =====
-- The `retry_after` of a denial by a token bucket.
use native.Mathlib.Nat.{mul-le-mul_right, mul-lt-mul_of_pos_right}
use lbpr.Prelude.{
  ℕ, ◌+◌, ◌-◌, ◌*◌, ◌≤◌, ◌<◌, String, ◌≡◌, ap, sym, ◌∙◌, Bool, false, Option, none, some, arith,
  leb,
}
use lbpr.Dict
use lbpr.RateLimiter.Policy.{Policy, token_bucket, ConsumeResult}
use lbpr.RateLimiter.Bucket.{Bucket, Outcome, ok, key_error}
use lbpr.RateLimiter.Store.{Store}
use lbpr.RateLimiter.Service.{capacity, price, token_step, to_result, consume, bucket_key}
use lbpr.RateLimiter.Floats.{IsExact, IsSmall}
use lbpr.RateLimiter.Steps.{
  wait_exact, denied_of_wait, answer_denied, token_step_denied, allowed-token_step, refilled,
}
use lbpr.RateLimiter.Entries.{
  TokenEntry, held_tokens, held_since, result-consume, entry-consume_self, token_step-TokenEntry,
}

-- the two answers of a call, where it does not raise
abbrev pub allowed_of : Outcome ConsumeResult → Option Bool
allowed_of (ok result) = some result.allowed
allowed_of key_error = none

abbrev pub wait_of : Outcome ConsumeResult → Option ℕ
wait_of (ok result) = result.retry_after
wait_of key_error = none

module _ (ticks : ℕ) (p : Policy) where
  -- after a denial, the same request `n` seconds later
  retry_step :
      (cost now tokens last n wait : ℕ)
      → 0 < ticks * p.rate
      → price ticks p cost ≤ capacity ticks p
      → let (b, d) = token_step ticks p cost now tokens last in
        d.retry_after ≡ some wait
        → (token_step ticks p cost
            (now + n * ticks)
            (held_tokens ticks p (some b))
            (held_since ticks p (now + n * ticks) (some b))).1.allowed
          ≡ leb wait n
  retry_step cost now tokens last n wait pos fits denied =
      let (short, waits) = denied_of_wait ticks p cost now tokens last wait denied in
      let elapsed : now + n * ticks - now ≡ n * ticks = omega arith in
      rw (waits, token_step_denied ticks p cost now tokens last short, allowed-token_step, elapsed)
        (wait_exact (price ticks p cost) (refilled ticks p now tokens last) (capacity ticks p) ticks
          p.rate n pos fits short)

  allowed-consume :
      (k : String) (cost now : ℕ) (s : Store) (e : Option Bucket)
      → p.algorithm ≡ token_bucket
      → Dict.lookup (bucket_key k p) s ≡ e
      → TokenEntry ticks p e
      → allowed_of (consume ticks k p cost now s).0
        ≡ some
            (token_step ticks p cost now
              (held_tokens ticks p e)
              (held_since ticks p now e)).1.allowed
  unfolding to_result
  allowed-consume k cost now s e alg stored entry =
      rw (← stored) (ap allowed_of (result-consume ticks p alg k cost now s (rw stored entry)))

  -- For a policy and times for which the source's floats are exact: after a denial that tells the
  -- caller to wait `wait` seconds, the same request, `n` seconds later and with no other call of its
  -- key between, is granted exactly if `wait ≤ n`: the wait suffices, and no shorter one does. The
  -- cost must be one that the bucket can ever hold.
  pub retry_after_exact :
      (k : String) (cost now n wait : ℕ) (s : Store)
      → IsExact ticks p
      → IsSmall ticks p cost (now + n * ticks)
      → p.algorithm ≡ token_bucket
      → 0 < ticks * p.rate
      → cost ≤ p.burst
      → TokenEntry ticks p (Dict.lookup (bucket_key k p) s)
      → wait_of (consume ticks k p cost now s).0 ≡ some wait
      → allowed_of (consume ticks k p cost (now + n * ticks) (consume ticks k p cost now s).1).0
        ≡ some (leb wait n)
  unfolding to_result
  retry_after_exact k cost now n wait s exact small alg pos fits entry denied =
      let e = Dict.lookup (bucket_key k p) s in
      let waits : (token_step ticks p cost now (held_tokens ticks p e)
            (held_since ticks p now e)).1.retry_after
          ≡ some wait =
        ap wait_of (sym (result-consume ticks p alg k cost now s entry)) ∙ denied in
      allowed-consume k cost (now + n * ticks) (consume ticks k p cost now s).1 _ alg
        (entry-consume_self ticks p alg k cost now s entry)
        (token_step-TokenEntry ticks p cost now _ _)
      ∙ ap some (
          retry_step cost now (held_tokens ticks p e) (held_since ticks p now e) n wait pos
            (mul-le-mul_right (p.period * ticks) fits) waits)

  -- A request that costs more than the burst is denied at every time, and told to wait all the same.
  pub too_dear_denied :
      (k : String) (cost now : ℕ) (s : Store)
      → p.algorithm ≡ token_bucket
      → 0 < p.period * ticks
      → p.burst < cost
      → TokenEntry ticks p (Dict.lookup (bucket_key k p) s)
      → (allowed_of (consume ticks k p cost now s).0 ≡ some false)
        × ((wait : ℕ) × (wait_of (consume ticks k p cost now s).0 ≡ some wait))
  unfolding to_result
  too_dear_denied k cost now s alg pos dear entry =
      let e = Dict.lookup (bucket_key k p) s in
      let short : capacity ticks p < price ticks p cost = mul-lt-mul_of_pos_right dear pos in
      let (refused, waits) =
        answer_denied ticks p cost now (held_tokens ticks p e) (held_since ticks p now e)
          (omega arith) in
      (
        ap allowed_of (result-consume ticks p alg k cost now s entry) ∙ ap some refused,
        (_, ap wait_of (result-consume ticks p alg k cost now s entry) ∙ waits),
      )
