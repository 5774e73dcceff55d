-- ===== src/Indexer/View.antt =====
-- What the record and the events of one job show, and how each method of the job store changes it.
use lbpr.Prelude.{ℕ, suc, ◌+◌, String, ◌≡◌, ◌≢◌, refl, ap, ◌∙◌, some, List, [], ◌∷◌, ◌++◌, map}
use lbpr.Dict
use lbpr.Dict.{Dict, lookup-insert_self, lookup-insert_ne}
use lbpr.Value.{Value}
use lbpr.Indexer.Contracts.{Job, JobCounts, JobEvent}
use lbpr.Indexer.Action.{State, Error, Result, ok, err, Action, ◌>>=◌}
use lbpr.Indexer.Store.{set_status, add_event, inc_counts, add_error}

pub record View (W : Type 0) : Type 0 where
  pub status : String
  pub counts : JobCounts
  pub errors : List String
  pub types : List String
  pub vectors : W

abbrev pub types_of : List JobEvent → List String
types_of events = map (λ e. e.type) events

map-append {ℓ κ} :
    {A : Type ℓ} {B : Type κ} (f : A → B) (xs ys : List A) → map f (xs ++ ys) ≡ map f xs ++ map f ys
map-append f [] ys = refl
map-append f (x ∷ xs) ys = ap (◌∷◌ (f x)) (map-append f xs ys)

module _ {W : Type 0} (job_id : String) where
  abbrev pub view_of : Job → List JobEvent → W → View W
  view_of job events vectors = record {
    status = job.status;
    counts = job.counts;
    errors = job.errors;
    types = types_of events;
    vectors = vectors;
  }

  pub record Shows (v : View W) (s : State W) : Type 0 where
    pub job : Job
    pub events : List JobEvent
    pub job_there : Dict.lookup job_id s.jobs ≡ some job
    pub events_there : Dict.lookup job_id s.events ≡ some events
    pub same : view_of job events s.vectors ≡ v

  -- The other jobs and their events are as they were.
  abbrev pub OthersKept : State W → State W → Type 0
  OthersKept s t =
      (j : String)
      → job_id ≢ j
      → (Dict.lookup j t.jobs ≡ Dict.lookup j s.jobs)
        × (Dict.lookup j t.events ≡ Dict.lookup j s.events)

  -- From any state that shows `v`, the step `m` gives the result `r` and a state that shows `v'`.
  abbrev pub Does : {A : Type 0} → Action W A → View W → Result A → View W → Type 0
  Does m v r v' =
      (s : State W) → Shows v s → (t : State W) × (m s ≡ (r, t)) × Shows v' t × OthersKept s t

  others_trans : (s t u : State W) → OthersKept s t → OthersKept t u → OthersKept s u
  others_trans s t u h k j other = ((k j other).0 ∙ (h j other).0, (k j other).1 ∙ (h j other).1)

  pub Does-then :
      {A B : Type 0} {v v' v'' : View W} (m : Action W A) (k : A → Action W B) (a : A)
      (r : Result B)
      → Does m v (ok a) v'
      → Does (k a) v' r v''
      → Does (m >>= k) v r v''
  Does-then m k a r first second s h =
      let (t, e, shown, kept) = first s h in
      let (u, e', shown', kept') = second t shown in
      (u, rw e e', shown', others_trans s t u kept kept')

  pub Does-raise :
      {A B : Type 0} {v v' : View W} (m : Action W A) (k : A → Action W B) (e : Error)
      → Does m v (err e) v'
      → Does (m >>= k) v (err e) v'
  Does-raise m k e first s h =
      let (t, raised, shown, kept) = first s h in (t, rw raised refl, shown, kept)

  -- the state after a job and its events are stored anew
  abbrev stored : State W → Job → (ℕ → ℕ) → State W
  stored s job clock = record s { jobs = Dict.insert job_id job s.jobs; clock = clock }

  stored-Shows :
      (v : View W) (s : State W) (job : Job) (clock : ℕ → ℕ) (events : List JobEvent)
      → Dict.lookup job_id s.events ≡ some events
      → view_of job events s.vectors ≡ v
      → Shows v (stored s job clock)
  stored-Shows v s job clock events there same = record {
    job = job;
    events = events;
    job_there = lookup-insert_self job_id job s.jobs;
    events_there = there;
    same = same;
  }

  stored_others : (s : State W) (job : Job) (clock : ℕ → ℕ) → OthersKept s (stored s job clock)
  stored_others s job clock j other = (lookup-insert_ne job_id j job s.jobs other, refl)

  module _ (v : View W) where
    pub set_status-Does :
        (status : String) → Does (set_status job_id status) v (ok tt) (record v { status = status })
    unfolding set_status
    set_status-Does status s h =
        let clock : ℕ → ℕ = λ n. s.clock (suc n) in
        let job : Job = record h.job { status = status; updated_at = s.clock 0 } in
        (
          stored s job clock,
          rw (h.job_there) refl,
          stored-Shows _ s job clock h.events h.events_there
              (ap (λ (x : View W). record x { status = status }) h.same),
          stored_others s job clock,
        )

    pub inc_counts-Does :
        (f : JobCounts → JobCounts)
        → Does (inc_counts job_id f) v (ok tt) (record v { counts = f v.counts })
    unfolding inc_counts
    inc_counts-Does f s h =
        let clock : ℕ → ℕ = λ n. s.clock (suc n) in
        let job : Job = record h.job { counts = f h.job.counts; updated_at = s.clock 0 } in
        (
          stored s job clock,
          rw (h.job_there) refl,
          stored-Shows _ s job clock h.events h.events_there
              (ap (λ (x : View W). record x { counts = f x.counts }) h.same),
          stored_others s job clock,
        )

    pub add_error-Does :
        (msg : String)
        → Does (add_error job_id msg) v (ok tt) (record v {
          counts = record v.counts { errors = v.counts.errors + 1 };
          errors = v.errors ++ msg ∷ [];
        })
    unfolding add_error
    add_error-Does msg s h =
        let clock : ℕ → ℕ = λ n. s.clock (suc n) in
        let job : Job = record h.job {
          counts = record h.job.counts { errors = h.job.counts.errors + 1 };
          errors = h.job.errors ++ msg ∷ [];
          updated_at = s.clock 0;
        } in
        (
          stored s job clock,
          rw (h.job_there) refl,
          stored-Shows _ s job clock h.events h.events_there (
              ap
                (λ (x : View W). record x {
                  counts = record x.counts { errors = x.counts.errors + 1 };
                  errors = x.errors ++ msg ∷ [];
                })
                h.same),
          stored_others s job clock,
        )

    pub add_event-Does :
        (type : String) (info : Dict Value)
        → Does (add_event job_id type info) v (ok tt) (record v { types = v.types ++ type ∷ [] })
    unfolding add_event
    add_event-Does type info s h =
        let clock : ℕ → ℕ = λ n. s.clock (suc (suc n)) in
        let event : JobEvent = record { ts = s.clock 0; type = type; «data» = info } in
        let job : Job = record h.job { updated_at = s.clock 1 } in
        let events : List JobEvent = h.events ++ event ∷ [] in
        let s' : State W = record s { events = Dict.insert job_id events s.events } in
        let types : types_of events ≡ types_of h.events ++ type ∷ [] =
          map-append (λ e. e.type) h.events (event ∷ []) in
        (
          stored s' job clock,
          rw (h.events_there, h.job_there) refl,
          stored-Shows _ s' job clock events (lookup-insert_self job_id events s.events) (
              ap (λ (x : List String). record (view_of h.job h.events s.vectors) { types = x })
                types
              ∙ ap (λ (x : View W). record x { types = x.types ++ type ∷ [] }) h.same),
          λ j other. (
            lookup-insert_ne job_id j job s.jobs other,
            lookup-insert_ne job_id j events s.events other,
          ),
        )
