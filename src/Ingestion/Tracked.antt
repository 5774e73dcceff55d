-- ===== src/Ingestion/Tracked.antt =====
-- What the steps of components/ingestionservice/service.py keep: the job of a call stays the one that
-- the repository has under its id, and the other jobs are left alone.
use mathlib.Core.List.{append-nil, append_assoc}
use lbpr.Prelude.{ℕ, String, ◌≡◌, ◌≢◌, refl, sym, ap, ◌∙◌, none, some, List, [], ◌∷◌, ◌++◌, map}
use lbpr.Dict
use lbpr.Dict.{lookup-insert_self, lookup-insert_ne}
use lbpr.Value.{Value}
use lbpr.Ingestion.Contracts.{
  IngestionStatus, running, failed, IngestionItem, IngestionEvent, IngestionJob,
}
use lbpr.Ingestion.Repository.{Repo}
use lbpr.Ingestion.Wants.{Want, event_of, types_of, Meets, AllMeet, AllMeet-append, Raised}
use lbpr.Ingestion.Frame.{
  Answer, returns, raises, Ports, Frame, Flow, goes_on, stops, log, set_status, fail, accept,
  attempt, and_then, each,
}

pub map-append {ℓ κ} :
    {A : Type ℓ} {B : Type κ} (f : A → B) (xs ys : List A) → map f (xs ++ ys) ≡ map f xs ++ map f ys
map-append f [] ys = refl
map-append f (x ∷ xs) ys = ap (◌∷◌ (f x)) (map-append f xs ys)

module _ {W : Type 0} (job_id tenant_id : String) (before : Repo) where
  -- The job is stored as it is, under its own id and tenant; other entries are those of `before`.
  pub record Tracked (s : Frame W) : Type 0 where
    pub own_id : s.job.id ≡ job_id
    pub own_tenant : s.job.tenant_id ≡ tenant_id
    pub stored : Dict.lookup job_id s.repo.jobs ≡ some s.job
    pub others : (j : String) → job_id ≢ j → Dict.lookup j s.repo.jobs ≡ Dict.lookup j before.jobs

  -- a job stored anew under its own id
  pub stored-Tracked :
      (s : Frame W) (job : IngestionJob) (now : ℕ → ℕ) (items : List IngestionItem)
      → ((j : String) → job_id ≢ j → Dict.lookup j s.repo.jobs ≡ Dict.lookup j before.jobs)
      → job.id ≡ job_id
      → job.tenant_id ≡ tenant_id
      → Tracked (record {
        job = job;
        items = items;
        repo = record { jobs = Dict.insert job.id job s.repo.jobs; now = now };
        world = s.world;
      })
  stored-Tracked s job now items others id tenant = record {
    own_id = id;
    own_tenant = tenant;
    stored =
        ap (λ (k : String). Dict.lookup k (Dict.insert job.id job s.repo.jobs)) (sym id)
        ∙ lookup-insert_self job.id job s.repo.jobs;
    others = λ j other.
        lookup-insert_ne job.id j job s.repo.jobs (λ e. other (sym id ∙ e)) ∙ others j other;
  }

  module _ (s : Frame W) (h : Tracked s) where
    pub log-Tracked :
        (type message : String) (info : Dict.Dict Value) → Tracked (log type message info s)
    unfolding log
    log-Tracked type message info =
        stored-Tracked s (log type message info s).job _ s.items h.others h.own_id h.own_tenant

    pub set_status-Tracked : (status : IngestionStatus) → Tracked (set_status status s)
    unfolding set_status
    set_status-Tracked status =
        stored-Tracked s (set_status status s).job _ s.items h.others h.own_id h.own_tenant

-- the job after the loops' work on the items of `wants`, and how the loops end
module _ {W : Type 0} (ports : Ports W) (job_id tenant_id : String) (before : Repo) where
  -- The loops are at work: `wants` are those that the items so far meet, and each has its event.
  pub record Running (wants : List Want) (s : Frame W) : Type 0 where
    pub tracked : Tracked job_id tenant_id before s
    pub status : s.job.status ≡ running
    pub unsubmitted : s.job.index_job_id ≡ none
    pub met : AllMeet ports tenant_id wants s.items
    pub logged : types_of s.job.events ≡ "job.created" ∷ "job.running" ∷ map event_of wants

  -- A port has raised.
  pub record Failed (s : Frame W) : Type 0 where
    pub status : s.job.status ≡ failed
    pub unsubmitted : s.job.index_job_id ≡ none
    pub cause : Raised ports tenant_id

  -- the loops' flow: still running with `wants`, or returned with a failed job
  pub data Fine (wants : List Want) : Flow W → Type 0 where
    at_work : {s : Frame W} → Running wants s → Fine wants (goes_on s)
    at_end : {s : Frame W} → Tracked job_id tenant_id before s → Failed s → Fine wants (stops s)

  pub fail-Fine :
      (type message : String) (info : Dict.Dict Value) (wants wants' : List Want) (s : Frame W)
      → Raised ports tenant_id
      → Running wants s
      → Fine wants' (fail type message info s)
  unfolding fail
  fail-Fine type message info wants wants' s cause h =
      at_end
        (log-Tracked job_id tenant_id before (set_status failed s)
          (set_status-Tracked job_id tenant_id before s h.tracked failed) type message info)
        (record { status = refl; unsubmitted = h.unsubmitted; cause = cause })

  pub accept-Fine :
      (want : Want) (message : String) (info : Dict.Dict Value) (item : IngestionItem)
      (wants : List Want) (s : Frame W)
      → Meets ports tenant_id want item
      → Running wants s
      → Fine (wants ++ want ∷ []) (accept (event_of want) message info item s)
  unfolding accept
  accept-Fine want message info item wants s meets h =
      let s' : Frame W = record s { items = s.items ++ item ∷ [] } in
      at_work (record {
        tracked =
            stored-Tracked job_id tenant_id before s (log (event_of want) message info s').job _
              (s.items ++ item ∷ []) h.tracked.others h.tracked.own_id h.tracked.own_tenant;
        status = h.status;
        unsubmitted = h.unsubmitted;
        met = AllMeet-append ports tenant_id wants s.items want item h.met meets;
        logged =
            map-append (λ (e : IngestionEvent). e.type) s.job.events _
            ∙ ap (λ (l : List String). l ++ event_of want ∷ []) h.logged
            ∙ ap (λ (l : List String). "job.created" ∷ "job.running" ∷ l)
                (sym (map-append event_of wants (want ∷ [])));
      })

  pub at_world :
      (wants : List Want) (s : Frame W) (w : W)
      → Running wants s
      → Running wants (record s { world = w })
  at_world wants s w h = record {
    tracked = record {
      own_id = h.tracked.own_id;
      own_tenant = h.tracked.own_tenant;
      stored = h.tracked.stored;
      others = h.tracked.others;
    };
    status = h.status;
    unsubmitted = h.unsubmitted;
    met = h.met;
    logged = h.logged;
  }

  pub attempt-Fine :
      {A : Type 0} (answer : Answer A × W) (kept : A → Frame W → Flow W)
      (lost : String → Frame W → Flow W) (wants wants' : List Want) (s : Frame W)
      → ((a : A) (w : W) (u : Frame W)
          → answer ≡ (returns a, w)
          → Running wants u
          → Fine wants' (kept a u))
      → ((e : String) (w : W) (u : Frame W)
          → answer ≡ (raises e, w)
          → Running wants u
          → Fine wants' (lost e u))
      → Running wants s
      → Fine wants' (attempt answer kept lost s)
  attempt-Fine (returns a, w) kept lost wants wants' s yeah nope h =
      yeah a w (record s { world = w }) refl (at_world wants s w h)
  attempt-Fine (raises e, w) kept lost wants wants' s yeah nope h =
      nope e w (record s { world = w }) refl (at_world wants s w h)

  pub and_then-Fine :
      (f : Flow W) (k : Frame W → Flow W) (wants wants' : List Want)
      → Fine wants f
      → ((u : Frame W) → Running wants u → Fine wants' (k u))
      → Fine wants' (and_then f k)
  and_then-Fine f k wants wants' (at_work {s} h) rest = rest s h
  and_then-Fine f k wants wants' (at_end tracked ended) rest = at_end tracked ended

  pub each-Fine :
      {A : Type 0} (want : A → Want) (body : A → Frame W → Flow W)
      → ((x : A) (wants : List Want) (u : Frame W)
          → Running wants u
          → Fine (wants ++ want x ∷ []) (body x u))
      → (xs : List A) (wants : List Want) (s : Frame W) → Running wants s
      → Fine (wants ++ map want xs) (each body xs s)
  unfolding each
  each-Fine want body step [] wants s h = rw append-nil (at_work h)
  each-Fine want body step (x ∷ xs) wants s h =
      rw (sym (append_assoc wants (want x ∷ []) (map want xs))) (
        and_then-Fine (body x s) (each body xs) (wants ++ want x ∷ [])
          ((wants ++ want x ∷ []) ++ map want xs) (step x wants s h)
          (λ u k. each-Fine want body step xs (wants ++ want x ∷ []) u k))
