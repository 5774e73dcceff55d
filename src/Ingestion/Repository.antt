-- ===== src/Ingestion/Repository.antt =====
-- components/ingestionservice/repository.py: `InMemoryIngestionRepo`. A job is an object that the
-- repository and the service share: `jobs` holds it under its id, and the service's assignments to it
-- are updates of that entry. `now` is the readings of the clock that are still to come. The methods
-- hold the lock, so each is one step.
use lbpr.Prelude.{ℕ, suc, String, Option, none, some, List, [], ◌∷◌, ◌++◌, str_eq, if◌then◌else◌}
use lbpr.Dict
use lbpr.Dict.{Dict}
use lbpr.Ingestion.Contracts.{pending, IngestionEvent, IngestionJob}

pub record Repo : Type 0 where
  pub jobs : Dict IngestionJob
  pub now : ℕ → ℕ

abbrev pub tick : Repo → Repo
tick repo = record repo { now = λ n. repo.now (suc n) }

-- with the id of `uuid4`
unfoldable pub create_job : String → String → Repo → IngestionJob × Repo
create_job job_id tenant_id repo =
    let job : IngestionJob = record {
      id = job_id;
      tenant_id = tenant_id;
      status = pending;
      created_at = repo.now 0;
      updated_at = repo.now 0;
      items = [];
      index_job_id = none;
      events = [];
    } in
    (job, record (tick repo) { jobs = Dict.insert job_id job repo.jobs })

-- `job and job.tenant_id == tenant_id`
abbrev pub of_tenant : String → Option IngestionJob → Option IngestionJob
of_tenant tenant_id none = none
of_tenant tenant_id (some job) = if str_eq job.tenant_id tenant_id then some job else none

unfoldable pub get_job : String → String → Repo → Option IngestionJob
get_job tenant_id job_id repo = of_tenant tenant_id (Dict.lookup job_id repo.jobs)

-- The two methods that store a job return it with its new time, which the caller's object shares.
unfoldable pub save_job : IngestionJob → Repo → IngestionJob × Repo
save_job job repo =
    let saved : IngestionJob = record job { updated_at = repo.now 0 } in
    (saved, record (tick repo) { jobs = Dict.insert job.id saved repo.jobs })

unfoldable pub append_event : IngestionJob → IngestionEvent → Repo → IngestionJob × Repo
append_event job event repo =
    let saved : IngestionJob = record job {
      events = job.events ++ event ∷ [];
      updated_at = repo.now 0;
    } in
    (saved, record (tick repo) { jobs = Dict.insert job.id saved repo.jobs })

abbrev pub events_of : Option IngestionJob → List IngestionEvent
events_of none = []
events_of (some job) = job.events

unfoldable pub list_events : String → String → Repo → List IngestionEvent
unfolding get_job
list_events tenant_id job_id repo = events_of (get_job tenant_id job_id repo)
