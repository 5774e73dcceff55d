-- ===== src/RateLimiter/Duality.antt =====
-- A leaky bucket and a token bucket of one rate, period and burst, side by side.
use lbpr.Prelude.{
  All, ℕ, ◌+◌, ◌-◌, ◌*◌, String, ◌≡◌, refl, ap, sym, Option, none, some, List, [], ◌∷◌, arith, inl,
  inr, String-cases,
}
use lbpr.Dict
use lbpr.Dict.{lookup-insert_self}
use lbpr.RateLimiter.Policy.{Policy, token_bucket, leaky_bucket}
use lbpr.RateLimiter.Bucket.{Bucket, Outcome, ok, empty, token_state, leaky_state}
use lbpr.RateLimiter.Store
use lbpr.RateLimiter.Store.{Store}
use lbpr.RateLimiter.Service.{
  Decision, capacity, price, token_step, leaky_step, token_update, leaky_update, decide_update,
  to_result, consume, bucket_key,
}
use native.Mathlib.Decide.{dec_le}
use lbpr.RateLimiter.Steps.{
  token_step-eq-leaky_step, refilled, token_step_granted, token_step_denied, leaky_step_granted,
  leaky_step_denied,
}
use lbpr.RateLimiter.Floats.{IsExact, IsSmall}
use lbpr.RateLimiter.Entries.{entry-consume_ne}
use lbpr.RateLimiter.Traffic.{Request, serve}

-- The same policy with each algorithm.
abbrev pub as_token : Policy → Policy
as_token p = record p { algorithm = token_bucket }

abbrev pub as_leaky : Policy → Policy
as_leaky p = record p { algorithm = leaky_bucket }

-- Entries that stand for the same bucket: the level of one is what the other lacks to be full.
pub data Dual (ticks : ℕ) (p : Policy) : Option Bucket → Option Bucket → Type 0 where
  absent : Dual ticks p none none
  cleared : Dual ticks p (some empty) (some empty)
  held :
      (tokens level last : ℕ)
      → tokens + level ≡ capacity ticks p
      → Dual ticks p (some (token_state tokens last)) (some (leaky_state level last))

module _ (ticks : ℕ) (p : Policy) where
  step-Dual :
      (cost now tokens level last : ℕ)
      → tokens + level ≡ capacity ticks p
      → Dual ticks p
          (some (token_step ticks (as_token p) cost now tokens last).0)
          (some (leaky_step ticks (as_leaky p) cost now level last).0)
  step-Dual cost now tokens level last h =
      let left : ℕ = level - (now - last) * p.rate in
      let full : ℕ = refilled ticks p now tokens last in
      let together : full + left ≡ capacity ticks p = omega arith in
      elim (dec_le (price ticks p cost) full) [
        | yes enough ↦
            rw
              (
                token_step_granted ticks (as_token p) cost now tokens last enough,
                leaky_step_granted ticks (as_leaky p) cost now level last (omega arith),
              )
              (held (full - price ticks p cost) (left + price ticks p cost) now (omega arith))
        | no short ↦
            rw
              (
                token_step_denied ticks (as_token p) cost now tokens last (omega arith),
                leaky_step_denied ticks (as_leaky p) cost now level last (omega arith),
              )
              (held full left now (omega arith))
      ]

  abbrev Agree : ℕ → ℕ → Outcome (Bucket × Decision) → Outcome (Bucket × Decision) → Type 0
  Agree cost now m n =
      (b c : Bucket) × (d : Decision) × (m ≡ ok (b, d))
      × (n ≡ ok (c, d))
      × Dual ticks p (some b) (some c)

  started :
      (cost now tokens level last : ℕ)
      → tokens + level ≡ capacity ticks p
      → Agree cost now
          (ok (token_step ticks (as_token p) cost now tokens last))
          (ok (leaky_step ticks (as_leaky p) cost now level last))
  unfolding token_step leaky_step
  started cost now tokens level last h =
      let (b, d) = token_step ticks (as_token p) cost now tokens last in
      let same : (leaky_step ticks (as_leaky p) cost now level last).1 ≡ d =
        sym (token_step-eq-leaky_step ticks p cost now tokens level last h) in
      let c : Bucket = (leaky_step ticks (as_leaky p) cost now level last).0 in
      (b, c, d, refl, ap (λ (x : Decision). ok (c, x)) same, step-Dual cost now tokens level last h)

  -- the two closures on dual entries give dual entries and one decision
  update-Dual :
      (cost now : ℕ) (e f : Option Bucket)
      → Dual ticks p e f
      → Agree cost now
          (decide_update ticks token_bucket (as_token p) cost now e)
          (decide_update ticks leaky_bucket (as_leaky p) cost now f)
  unfolding decide_update token_update leaky_update
  update-Dual cost now none none absent = started cost now (capacity ticks p) 0 now (omega arith)
  update-Dual cost now none (some c) d = elim d [ ]
  update-Dual cost now (some b) none d = elim d [ ]
  update-Dual cost now (some b) (some c) cleared =
      started cost now (capacity ticks p) 0 now (omega arith)
  update-Dual cost now (some b) (some c) (held tokens level last h) =
      started cost now tokens level last h

  -- Every key has dual entries.
  abbrev pub DualStores : Store → Store → Type 0
  DualStores s u =
      (k : String)
      → Dual ticks p (Dict.lookup (bucket_key k (as_token p)) s)
          (Dict.lookup (bucket_key k (as_leaky p)) u)

  -- one call on each store
  consume-Dual :
      (k : String) (cost now : ℕ) (s u : Store)
      → DualStores s u
      → let (o, s') = consume ticks k (as_token p) cost now s in
        let (q, u') = consume ticks k (as_leaky p) cost now u in
        (o ≡ q)
        × Dual ticks p
            (Dict.lookup (bucket_key k (as_token p)) s')
            (Dict.lookup (bucket_key k (as_leaky p)) u')
  unfolding consume Store.update
  consume-Dual k cost now s u h =
      let (b, c, d, em, en, dual) =
        update-Dual cost now (Dict.lookup (bucket_key k (as_token p)) s)
          (Dict.lookup (bucket_key k (as_leaky p)) u) (h k) in
      rw (em, en) (unfold to_result in refl, simp lookup-insert_self dual)

  consume-DualStores :
      (k : String) (cost now : ℕ) (s u : Store)
      → DualStores s u
      → DualStores
          (consume ticks k (as_token p) cost now s).1
          (consume ticks k (as_leaky p) cost now u).1
  consume-DualStores k cost now s u h j = elim (String-cases k j) [
    | inl (_, same) ↦ rw (← same) (consume-Dual k cost now s u h).1
    | inr (_, other) ↦
        rw
          (
            entry-consume_ne ticks (as_token p) k j cost now s other,
            entry-consume_ne ticks (as_leaky p) k j cost now u other,
          )
          (h j)
  ]

  -- For a policy, costs and times for which the source's floats are exact, any sequence of calls, for
  -- any keys, is answered alike under the two algorithms: the same decisions, the same remaining
  -- tokens and the same waits.
  pub serve-token-eq-leaky :
      (rs : List Request) (s u : Store)
      → IsExact ticks p
      → All (λ r. IsSmall ticks p r.cost r.now) rs
      → DualStores s u
      → serve ticks (as_token p) rs s ≡ serve ticks (as_leaky p) rs u
  unfolding serve
  serve-token-eq-leaky [] s u exact small h = refl
  serve-token-eq-leaky (r ∷ rs) s u exact small h = cc (
    (consume-Dual r.key r.cost r.now s u h).0,
    serve-token-eq-leaky rs (consume ticks r.key (as_token p) r.cost r.now s).1
        (consume ticks r.key (as_leaky p) r.cost r.now u).1 exact small.1
        (consume-DualStores r.key r.cost r.now s u h),
  )
