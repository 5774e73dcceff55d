-- ===== src/RateLimiter/Middleware/Dispatch.antt =====
-- What `dispatch` does on each of its paths.
use lbpr.Prelude.{
  ℕ, String, ◌≡◌, inl, inr, refl, Bool, true, false, Option, none, some, List, [], ◌∷◌, ◌++◌, arith,
  All, ap, not, leb, Bool-cases,
}
use lbpr.Dict
use lbpr.RateLimiter.Entries.{TokenEntry, held_tokens, held_since, result-consume}
use lbpr.RateLimiter.Steps.{refilled, allowed-token_step}
use lbpr.RateLimiter.Policy.{token_bucket, Policy, TextOps, matches, ConsumeResult}
use lbpr.RateLimiter.Bucket.{Outcome, ok, key_error}
use lbpr.RateLimiter.Store.{Store}
use lbpr.RateLimiter.Service.{consume, price, bucket_key, to_result}
use lbpr.RateLimiter.Middleware.{
  Middleware, Request, Response, passed, annotated, limited, build_key, select_policy, skipped,
  respond, limit, dispatch,
}

module _ (ops : TextOps) where
  -- The first policy of the list that matches, which is what one searches for.
  select_policy_first :
      (method path : String) (ps : List Policy) (p : Policy)
      → select_policy ops method path ps ≡ some p
      → (before after : List Policy) × (ps ≡ before ++ p ∷ after)
        × (matches ops p method path ≡ true)
        × All (λ q. matches ops q method path ≡ false) before
  unfolding select_policy
  select_policy_first method path [] p e = cc
  select_policy_first method path (q ∷ ps) p e = elim (Bool-cases (matches ops q method path)) [
    | inl here ↦ ([], ps, ground arith, ground arith, tt)
    | inr later ↦
        let (before, after, split, found, none_before) =
          select_policy_first method path ps p (ground arith) in
        (q ∷ before, after, cc, found, (later, none_before))
  ]

  -- Without a policy none matches.
  pub select_policy-none :
      (method path : String) (ps : List Policy)
      → select_policy ops method path ps ≡ none
      → All (λ q. matches ops q method path ≡ false) ps
  unfolding select_policy
  select_policy-none method path [] e = tt
  select_policy-none method path (q ∷ ps) e = elim (Bool-cases (matches ops q method path)) [
    | inl here ↦ absurd (ground arith)
    | inr later ↦ (later, select_policy-none method path ps (ground arith))
  ]

  module _ (ticks : ℕ) {R W : Type 0} (call_next : W → R × W) where
    -- how the application's state `w'` after a request comes from the state `w` before it
    abbrev pub Called : Outcome (Response R) → W → W → Type 0
    Called (ok (passed a)) w w' = call_next w ≡ (a, w')
    Called (ok (annotated a _)) w w' = call_next w ≡ (a, w')
    Called (ok (limited _ _)) w w' = w' ≡ w
    Called key_error w w' = w' ≡ w

    respond-Called :
        (p : Policy) (result : Outcome ConsumeResult) (w : W)
        → let (o, w') = respond ops ticks call_next p result w in Called o w w'
    unfolding respond
    respond-Called p key_error w = refl
    respond-Called p (ok result) w = elim (Bool-cases result.allowed) [
      | inl allowed ↦ rw allowed refl
      | inr denied ↦ rw denied refl
    ]

    limit-Called :
        (m : Middleware) (r : Request) (now : ℕ) (o : Option Policy) (s : Store) (w : W)
        → let (result, w', _) = limit ops ticks call_next m r now o s w in Called result w w'
    unfolding limit
    limit-Called m r now none s w = refl
    limit-Called m r now (some p) s w =
        respond-Called p (consume ticks (build_key m r p) p p.cost now s).0 w

    -- The application sees a request once, and its answer is the one that is sent; a request that is
    -- answered by 429, or on which the limiter raises, it does not see.
    pub dispatch-Called :
        (m : Middleware) (r : Request) (now : ℕ) (s : Store) (w : W)
        → let (o, w', _) = dispatch ops ticks call_next m r now s w in Called o w w'
    unfolding dispatch
    dispatch-Called m r now s w = elim (Bool-cases (skipped ops r.path m.skip_paths)) [
      | inl skip ↦ rw skip refl
      | inr on ↦
          rw on
            (limit-Called m r now (select_policy ops (ops.upper r.method) r.path m.policies) s w)
    ]

    abbrev pub is_limited : Outcome (Response R) → Bool
    is_limited (ok (limited _ _)) = true
    is_limited _ = false

    limited-respond :
        (p : Policy) (result : ConsumeResult) (w : W)
        → is_limited (respond ops ticks call_next p (ok result) w).0 ≡ not result.allowed
    unfolding respond
    limited-respond p result w = ground arith

    -- A request on no skipped path, whose first matching policy is a token bucket, is answered by 429
    -- exactly if the bucket of its key holds fewer tokens than the policy's cost.
    pub dispatch_gate :
        (m : Middleware) (r : Request) (now : ℕ) (s : Store) (w : W) (p : Policy)
        → skipped ops r.path m.skip_paths ≡ false
        → select_policy ops (ops.upper r.method) r.path m.policies ≡ some p
        → p.algorithm ≡ token_bucket
        → TokenEntry ticks p (Dict.lookup (bucket_key (build_key m r p) p) s)
        → let e = Dict.lookup (bucket_key (build_key m r p) p) s in
          is_limited (dispatch ops ticks call_next m r now s w).0
          ≡ not (
              leb
                (price ticks p p.cost)
                (refilled ticks p now (held_tokens ticks p e) (held_since ticks p now e)))
    unfolding dispatch limit to_result
    dispatch_gate m r now s w p on chosen alg entry =
        let k = build_key m r p in
        rw (on, chosen, result-consume ticks p alg k p.cost now s entry, limited-respond)
          (ap not (allowed-token_step ticks p p.cost now _ _))
