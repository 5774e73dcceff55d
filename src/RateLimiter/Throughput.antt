-- ===== src/RateLimiter/Throughput.antt =====
-- A token bucket lets through at most its burst, and what its rate adds over time.
use native.Mathlib.Nat.{mul-le-mul_right}
use lbpr.Prelude.{
  ℕ, ◌+◌, ◌-◌, ◌*◌, ◌≤◌, min, String, ◌≡◌, refl, ap, ◌∙◌, Option, none, some, List, [], ◌∷◌, arith,
  leb, if◌then◌else◌, str_eq, inl, inr, Bool-cases, String-cases, leb→le,
}
use lbpr.Dict
use lbpr.Dict.{lookup-insert_self}
use lbpr.RateLimiter.Policy.{Policy, token_bucket}
use lbpr.RateLimiter.Bucket.{Bucket, ok}
use lbpr.RateLimiter.Store.{Store}
use lbpr.RateLimiter.Service.{capacity, price, unit, token_step, to_result, consume, bucket_key}
use lbpr.RateLimiter.Entries.{
  TokenEntry, absent, cleared, held, held_tokens, held_since, token_step-TokenEntry, result-consume,
  entry-consume_self, entry-consume_ne,
}
use lbpr.RateLimiter.Traffic.{Request, InOrder, last_time, serve, granted, total_granted}

-- Every entry of the policy is well formed.
abbrev pub TokenStore : ℕ → Policy → Store → Type 0
TokenStore ticks p s = (k : String) → TokenEntry ticks p (Dict.lookup (bucket_key k p) s)

-- Over a longer time a bucket refills at most by the rate.
refill_split :
    (now t last rate : ℕ) → t ≤ now → (now - last) * rate ≤ (t - last) * rate + (now - t) * rate
refill_split now t last rate h =
    let apart : now - last ≤ (t - last) + (now - t) = omega arith in
    omega (arith, mul-le-mul_right rate apart)

zero_elapsed : (now rate : ℕ) → (now - now) * rate ≡ 0
zero_elapsed now rate = let none_left : now - now ≡ 0 = omega arith in rw none_left (omega arith)

module _ (ticks : ℕ) (p : Policy) where
  -- the tokens that a decision at `now` can spend
  potential : Option Bucket → ℕ → ℕ
  potential e now =
      min (capacity ticks p) (held_tokens ticks p e + (now - held_since ticks p now e) * p.rate)

  potential-le :
      (e : Option Bucket) (t now : ℕ)
      → TokenEntry ticks p e
      → t ≤ now
      → potential e now ≤ potential e t + (now - t) * p.rate
  unfolding potential
  potential-le none t now absent h = omega arith
  potential-le (some b) t now cleared h = omega arith
  potential-le (some b) t now (held tokens last fits) h =
      omega (arith, refill_split now t last p.rate h)

  potential-le-capacity : (e : Option Bucket) (t : ℕ) → potential e t ≤ capacity ticks p
  unfolding potential
  potential-le-capacity e t = omega arith

  -- what a decision grants it takes from the bucket
  granted-step :
      (k : String) (cost now tokens last : ℕ)
      → let (b, d) = token_step ticks p cost now tokens last in
        granted cost (ok (to_result k p d)) * unit ticks p + potential (some b) now
        ≡ min (capacity ticks p) (tokens + (now - last) * p.rate)
  unfolding potential token_step granted to_result
  granted-step k cost now tokens last =
      let refilled : ℕ = min (capacity ticks p) (tokens + (now - last) * p.rate) in
      elim (Bool-cases (leb (price ticks p cost) refilled)) [
        | inl enough ↦ rw enough (omega (arith, zero_elapsed now p.rate, leb→le _ _ enough))
        | inr short ↦ rw short (omega (arith, zero_elapsed now p.rate))
      ]

  module _ (alg : p.algorithm ≡ token_bucket) where
    -- a call keeps every entry well formed
    pub consume-TokenStore :
        (r : Request) (s : Store)
        → TokenStore ticks p s
        → TokenStore ticks p (consume ticks r.key p r.cost r.now s).1
    consume-TokenStore r s h k = elim (String-cases r.key k) [
      | inl (_, same) ↦
          rw (← same, entry-consume_self ticks p alg r.key r.cost r.now s (h r.key))
            (token_step-TokenEntry ticks p r.cost r.now _ _)
      | inr (_, other) ↦ rw (entry-consume_ne ticks p r.key k r.cost r.now s other) (h k)
    ]

    -- what the call `r` grants to `k`
    share : (k : String) (r : Request) (s : Store) → ℕ
    share k r s =
        if str_eq r.key k then granted r.cost (consume ticks r.key p r.cost r.now s).0 else 0

    own_share :
        (k : String) (cost now : ℕ) (s : Store)
        → TokenEntry ticks p (Dict.lookup (bucket_key k p) s)
        → granted cost (consume ticks k p cost now s).0 * unit ticks p
            + potential (Dict.lookup (bucket_key k p) (consume ticks k p cost now s).1) now
          ≡ potential (Dict.lookup (bucket_key k p) s) now
    own_share k cost now s h =
        rw
          (result-consume ticks p alg k cost now s h, entry-consume_self ticks p alg k cost now s h)
          (granted-step k cost now _ _ ∙ unfold potential in refl)

    share-le :
        (k : String) (t : ℕ) (r : Request) (s : Store)
        → TokenStore ticks p s
        → t ≤ r.now
        → share k r s * unit ticks p
            + potential
                (Dict.lookup (bucket_key k p) (consume ticks r.key p r.cost r.now s).1)
                r.now
          ≤ potential (Dict.lookup (bucket_key k p) s) t + (r.now - t) * p.rate
    unfolding share
    share-le k t r s h later = elim (String-cases r.key k) [
      | inl (test, same) ↦
          rw (test, ← same)
            (omega (
              arith,
              own_share r.key r.cost r.now s (h r.key),
              potential-le (Dict.lookup (bucket_key r.key p) s) t r.now (h r.key) later,
            ))
      | inr (test, other) ↦
          rw (test, entry-consume_ne ticks p r.key k r.cost r.now s other)
            (omega (arith, potential-le (Dict.lookup (bucket_key k p) s) t r.now (h k) later))
    ]

    last_time-ge : (t : ℕ) (rs : List Request) → InOrder t rs → t ≤ last_time t rs
    last_time-ge t [] h = omega arith
    last_time-ge t (r ∷ rs) h = omega (arith, last_time-ge r.now rs h.1)

    total-le :
        (k : String) (t : ℕ) (rs : List Request) (s : Store)
        → TokenStore ticks p s
        → InOrder t rs
        → total_granted k rs (serve ticks p rs s) * unit ticks p
          ≤ potential (Dict.lookup (bucket_key k p) s) t + (last_time t rs - t) * p.rate
    unfolding serve total_granted share
    total-le k t [] s h order = omega arith
    total-le k t (r ∷ rs) s h order =
        let end : ℕ = last_time r.now rs in
        let span : (r.now - t) + (end - r.now) ≡ end - t =
          omega (arith, last_time-ge r.now rs order.1) in
        omega (
          arith,
          share-le k t r s h order.0,
          total-le k r.now rs (consume ticks r.key p r.cost r.now s).1 (consume-TokenStore r s h)
              order.1,
          ap (λ (x : ℕ). x * p.rate) span,
        )

    -- Whatever the interleaving of keys, and from any state that the policy's calls can have left,
    -- the calls of one key from time `t` on are granted together at most the burst and what the rate
    -- adds until the last call.
    pub throughput_bound :
        (k : String) (t : ℕ) (rs : List Request) (s : Store)
        → TokenStore ticks p s
        → InOrder t rs
        → total_granted k rs (serve ticks p rs s) * unit ticks p
          ≤ capacity ticks p + (last_time t rs - t) * p.rate
    throughput_bound k t rs s h order =
        omega (
          arith,
          total-le k t rs s h order,
          potential-le-capacity (Dict.lookup (bucket_key k p) s) t,
        )
