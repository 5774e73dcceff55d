-- ===== src/RateLimiter/Reports.antt =====
-- `snapshot` and `reset` of components/ratelimiter/service.py against `consume`.
use lbpr.Prelude.{ℕ, String, ◌≡◌, refl, sym, ap, ◌∙◌, Option, none, some, arith, inl, inr}
use lbpr.Dict
use lbpr.Dict.{lookup-insert_self, lookup-erase}
use lbpr.Prelude.{eq_refl}
use lbpr.RateLimiter.Policy.{Policy, Algorithm, token_bucket, leaky_bucket, ConsumeResult}
use lbpr.RateLimiter.Bucket.{Bucket, Outcome, ok, key_error, empty, Outcome-cases}
use lbpr.RateLimiter.Store
use lbpr.RateLimiter.Store.{Store}
use lbpr.RateLimiter.Service.{
  token_step, token_update, leaky_update, decide_update, to_result, consume, bucket_key, reset,
  snapshot, snapshot_of,
}
use lbpr.RateLimiter.Entries.{
  TokenEntry, held_tokens, held_since, result-consume, entry-consume_self,
}

update-empty :
    (ticks : ℕ) (a : Algorithm) (p : Policy) (cost now : ℕ)
    → decide_update ticks a p cost now (some empty) ≡ decide_update ticks a p cost now none
unfolding decide_update token_update leaky_update
update-empty ticks token_bucket p cost now = refl
update-empty ticks leaky_bucket p cost now = refl

-- After `reset` a call is answered as one whose bucket was never used, whatever was stored before
-- and whichever the algorithm.
pub consume-reset :
    (ticks : ℕ) (k : String) (p : Policy) (cost now : ℕ) (s : Store)
    → (consume ticks k p cost now (reset k p s)).0
      ≡ (consume ticks k p cost now (Dict.erase (bucket_key k p) s)).0
unfolding consume reset Store.update Store.set
consume-reset ticks k p cost now s =
    rw (lookup-insert_self, lookup-erase (bucket_key k p) (bucket_key k p) s, eq_refl, update-empty)
      (elim (Outcome-cases (decide_update ticks p.algorithm p cost now none)) [
        | inl (_, decided) ↦ rw decided (unfold Store.store_back in refl)
        | inr raised ↦ rw raised (unfold Store.store_back in refl)
      ])

remaining-token_step :
    (ticks : ℕ) (p : Policy) (cost now tokens last : ℕ)
    → let (b, d) = token_step ticks p cost now tokens last in
      (b.tokens ≡ some d.remaining) × (b.last_refill_ts ≡ some now)
unfolding token_step
remaining-token_step ticks p cost now tokens last = ground arith

snapshot_of-token_bucket :
    (a : Algorithm) (k : String) (b : Bucket)
    → a ≡ token_bucket
    → ((snapshot_of a k (some b)).tokens ≡ b.tokens)
      × ((snapshot_of a k (some b)).last_refill_ts ≡ b.last_refill_ts)
unfolding snapshot_of
snapshot_of-token_bucket token_bucket k b alg = (refl, refl)
snapshot_of-token_bucket leaky_bucket k b alg = cc

abbrev remaining_of : Outcome ConsumeResult → Option ℕ
remaining_of (ok result) = some result.remaining
remaining_of key_error = none

-- The snapshot after a call on a token bucket shows the tokens that the call reported as remaining,
-- at the time of the call.
pub snapshot-consume :
    (ticks : ℕ) (k : String) (p : Policy) (cost now : ℕ) (s : Store) (result : ConsumeResult)
    → p.algorithm ≡ token_bucket
    → TokenEntry ticks p (Dict.lookup (bucket_key k p) s)
    → (consume ticks k p cost now s).0 ≡ ok result
    → let shown = snapshot k p (consume ticks k p cost now s).1 in
      (shown.tokens ≡ some result.remaining) × (shown.last_refill_ts ≡ some now)
unfolding snapshot Store.get to_result
snapshot-consume ticks k p cost now s result alg entry returned =
    let e = Dict.lookup (bucket_key k p) s in
    let (kept, stamped) =
      remaining-token_step ticks p cost now (held_tokens ticks p e) (held_since ticks p now e) in
    let reported =
      ap remaining_of (sym (result-consume ticks p alg k cost now s entry) ∙ returned) in
    let (tokens, time) = snapshot_of-token_bucket p.algorithm k _ alg in
    rw (entry-consume_self ticks p alg k cost now s entry)
      (tokens ∙ kept ∙ reported, time ∙ stamped)
