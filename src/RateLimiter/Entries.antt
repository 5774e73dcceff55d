-- ===== src/RateLimiter/Entries.antt =====
-- The entries that the store holds for one policy, and one `consume` on such an entry.
use lbpr.Prelude.{
  ℕ, ◌+◌, ◌-◌, ◌*◌, ◌≤◌, min, String, ◌≡◌, ◌≢◌, refl, Option, none, some, arith, leb, Bool-cases,
  inl, inr, sym, ap, ◌∙◌,
}
use lbpr.Dict
use lbpr.Dict.{lookup-insert_self, lookup-insert_ne}
use lbpr.RateLimiter.Policy.{Policy, Algorithm, token_bucket}
use lbpr.RateLimiter.Bucket.{Bucket, ok, empty, token_state, Outcome-cases}
use lbpr.RateLimiter.Store
use lbpr.RateLimiter.Store.{Store}
use lbpr.RateLimiter.Service.{
  Decision, capacity, price, token_step, token_update, decide_update, to_result, consume,
  bucket_key,
}
use lbpr.RateLimiter.Keys.{bucket_key_injective}

-- What stands in the store under the bucket key of a token policy: nothing, the `{}` of `reset`, or
-- a state with no more tokens than the bucket can hold.
pub data TokenEntry (ticks : ℕ) (p : Policy) : Option Bucket → Type 0 where
  absent : TokenEntry ticks p none
  cleared : TokenEntry ticks p (some empty)
  held :
      (tokens last : ℕ)
      → tokens ≤ capacity ticks p
      → TokenEntry ticks p (some (token_state tokens last))

module _ (ticks : ℕ) (p : Policy) where
  -- the tokens and the time that a decision at `now` starts from
  abbrev pub held_tokens : Option Bucket → ℕ
  held_tokens none = capacity ticks p
  held_tokens (some b) = elim b.tokens [ none ↦ capacity ticks p | some t ↦ t ]

  abbrev pub held_level : Option Bucket → ℕ
  held_level none = 0
  held_level (some b) = elim b.level [ none ↦ 0 | some l ↦ l ]

  abbrev pub held_since : ℕ → Option Bucket → ℕ
  held_since now none = now
  held_since now (some b) = elim b.last_refill_ts [ none ↦ now | some l ↦ l ]

  pub token_update-eq :
      (cost now : ℕ) (e : Option Bucket)
      → TokenEntry ticks p e
      → token_update ticks p cost now e
        ≡ ok (token_step ticks p cost now (held_tokens e) (held_since now e))
  unfolding token_update
  token_update-eq cost now none absent = refl
  token_update-eq cost now (some e) cleared = refl
  token_update-eq cost now (some e) (held tokens last h) = refl

  pub token_step-TokenEntry :
      (cost now tokens last : ℕ)
      → TokenEntry ticks p (some (token_step ticks p cost now tokens last).0)
  unfolding token_step
  token_step-TokenEntry cost now tokens last =
      let refilled : ℕ = min (capacity ticks p) (tokens + (now - last) * p.rate) in
      elim (Bool-cases (leb (price ticks p cost) refilled)) [
        | inl enough ↦ rw enough (held (refilled - price ticks p cost) now (omega arith))
        | inr short ↦ rw short (held refilled now (omega arith))
      ]

  decide_update-token :
      (a : Algorithm) (cost now : ℕ) (e : Option Bucket)
      → a ≡ token_bucket
      → decide_update ticks a p cost now e ≡ token_update ticks p cost now e
  decide_update-token a cost now e alg =
      ap (λ (b : Algorithm). decide_update ticks b p cost now e) alg ∙ unfold decide_update in refl

  -- one call, on an entry of a token policy
  pub consume-token_step :
      (k : String) (cost now : ℕ) (s : Store)
      → p.algorithm ≡ token_bucket
      → TokenEntry ticks p (Dict.lookup (bucket_key k p) s)
      → let e = Dict.lookup (bucket_key k p) s in
        let (b, d) = token_step ticks p cost now (held_tokens e) (held_since now e) in
        consume ticks k p cost now s ≡ (ok (to_result k p d), Dict.insert (bucket_key k p) b s)
  unfolding consume Store.update
  consume-token_step k cost now s alg entry =
      let e = Dict.lookup (bucket_key k p) s in
      rw (decide_update-token p.algorithm cost now e alg, token_update-eq cost now e entry)

-- A call leaves every other entry of the store as it was, whatever it returns.
pub consume_others :
    (ticks : ℕ) (p : Policy) (k : String) (cost now : ℕ) (s : Store) (other : String)
    → other ≢ bucket_key k p
    → Dict.lookup other (consume ticks k p cost now s).1 ≡ Dict.lookup other s
unfolding consume Store.update
consume_others ticks p k cost now s other h =
    elim (Outcome-cases
      (decide_update ticks p.algorithm p cost now (Dict.lookup (bucket_key k p) s))) [
        | inl ((b, d), e) ↦
            rw (e, Store.store_back) (lookup-insert_ne (bucket_key k p) other b s (λ q. h (sym q)))
        | inr e ↦ rw e
      ]

module _ (ticks : ℕ) (p : Policy) (alg : p.algorithm ≡ token_bucket) where
  module _ (k : String) (cost now : ℕ) (s : Store) where
    -- the step that a call makes on the entry of its key
    abbrev pub step_of : Bucket × Decision
    step_of =
        let e = Dict.lookup (bucket_key k p) s in
        token_step ticks p cost now (held_tokens ticks p e) (held_since ticks p now e)

  pub result-consume :
      (k : String) (cost now : ℕ) (s : Store)
      → TokenEntry ticks p (Dict.lookup (bucket_key k p) s)
      → (consume ticks k p cost now s).0 ≡ ok (to_result k p (step_of k cost now s).1)
  result-consume k cost now s entry =
      ap (λ t. t.0) (consume-token_step ticks p k cost now s alg entry)

  pub entry-consume_self :
      (k : String) (cost now : ℕ) (s : Store)
      → TokenEntry ticks p (Dict.lookup (bucket_key k p) s)
      → Dict.lookup (bucket_key k p) (consume ticks k p cost now s).1
        ≡ some (step_of k cost now s).0
  entry-consume_self k cost now s entry =
      rw (consume-token_step ticks p k cost now s alg entry)
        (lookup-insert_self (bucket_key k p) _ s)

-- A call under one policy leaves the entries of the policy's other keys alone.
pub entry-consume_ne :
    (ticks : ℕ) (p : Policy) (k j : String) (cost now : ℕ) (s : Store)
    → k ≢ j
    → Dict.lookup (bucket_key j p) (consume ticks k p cost now s).1 ≡ Dict.lookup (bucket_key j p) s
entry-consume_ne ticks p k j cost now s h =
    consume_others ticks p k cost now s (bucket_key j p)
      (λ e. h (sym (bucket_key_injective j k p e)))
