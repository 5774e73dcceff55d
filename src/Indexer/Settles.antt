-- ===== src/Indexer/Settles.antt =====
-- How the `try` of `create_job` ends: each way a step can go on, or fail into the handler.
use lbpr.Prelude.{◌+◌, String, ◌≡◌, refl, ap, ◌∙◌, List, [], ◌∷◌, ◌++◌}
use lbpr.Indexer.Contracts.{VectorItem}
use lbpr.Indexer.Action.{State, Error, Result, ok, err, Action, catch, ◌>>=◌}
use lbpr.Indexer.View.{View, Does, Does-then, set_status-Does, add_error-Does}
use lbpr.Indexer.Service.{Answer, Ports, from_port, call_upsert, message_of, fail}

module _ {W : Type 0} (job_id : String) where
  -- the view of a job whose run raised `e`
  abbrev pub failed : Error → View W → View W
  failed e v = record v {
    status = "failed";
    counts = record v.counts { errors = v.counts.errors + 1 };
    errors = v.errors ++ message_of e ∷ [];
  }

  abbrev pub Settles : Action W (Unit {0}) → View W → View W → Type 0
  Settles m v v' = Does job_id (catch m (fail job_id)) v (ok tt) v'

  pub Settles-ok :
      {v v' : View W} (m : Action W (Unit {0})) → Does job_id m v (ok tt) v' → Settles m v v'
  Settles-ok m does s h = let (t, e, shown, kept) = does s h in (t, rw e refl, shown, kept)

  fail-Does : (e : Error) (v : View W) → Does job_id (fail job_id e) v (ok tt) (failed e v)
  unfolding fail
  fail-Does e v =
      Does-then job_id _ _ tt (ok tt) (add_error-Does job_id v (message_of e))
        (set_status-Does job_id _ "failed")

  pub Settles-raise :
      {v v' : View W} (m : Action W (Unit {0})) (e : Error)
      → Does job_id m v (err e) v'
      → Settles m v (failed e v')
  Settles-raise {v} {v'} m e does s h =
      let (t, raised, shown, kept) = does s h in
      let (u, done, shown', kept') = fail-Does e v' t shown in
      (
        u,
        rw raised done,
        shown',
        λ j other. ((kept' j other).0 ∙ (kept j other).0, (kept' j other).1 ∙ (kept j other).1),
      )

  pub Settles-then :
      {A : Type 0} {v v' v'' : View W} (m : Action W A) (k : A → Action W (Unit {0})) (a : A)
      → Does job_id m v (ok a) v'
      → Settles (k a) v' v''
      → Settles (m >>= k) v v''
  Settles-then m k a does rest s h =
      let (t, e, shown, kept) = does s h in
      let (u, done, shown', kept') = rest t shown in
      (
        u,
        rw e done,
        shown',
        λ j other. ((kept' j other).0 ∙ (kept j other).0, (kept' j other).1 ∙ (kept j other).1),
      )

  -- a step that leaves the state alone
  pub same_state :
      {A : Type 0} (m : Action W A) (r : Result A) (v : View W)
      → ((s : State W) → m s ≡ (r, s))
      → Does job_id m v r v
  same_state m r v e s h = (s, e s, h, λ j other. (refl, refl))

  -- a call of the vector store, by its answer
  module _ {F : Type 0} (ports : Ports F W) (ns : String) (items : List (VectorItem F))
      (v : View W) where
    pub call_upsert-Does :
        (a : Answer (Unit {0})) (w : W) (r : Result (Unit {0}))
        → ports.upsert ns items v.vectors ≡ (a, w)
        → ((s : State W) → from_port a s ≡ (r, s))
        → Does job_id (call_upsert ports ns items) v r (record v { vectors = w })
    unfolding call_upsert
    call_upsert-Does a w r called means s h =
        let before : s.vectors ≡ v.vectors = ap (λ (x : View W). x.vectors) h.same in
        let answer : ports.upsert ns items s.vectors ≡ (a, w) =
          ap (ports.upsert ns items) before ∙ called in
        (
          record s { vectors = w },
          rw answer (means (record s { vectors = w })),
          record {
            job = h.job;
            events = h.events;
            job_there = h.job_there;
            events_there = h.events_there;
            same = ap (λ (x : View W). record x { vectors = w }) h.same;
          },
          λ j other. (refl, refl),
        )
