-- ===== src/Indexer/Store.antt =====
-- components/indexer/adapters_inmemory.py: `InMemoryJobStore` and `InMemoryVectorStore`. A job's id
-- is a digest of the tenant and the time, `digest`, a parameter. The dict of a job is the record
-- `Job`, whose keys `create_job` sets once. `inc_counts` is called with one of two keywords.
use lbpr.Prelude.{ℕ, ◌+◌, String, Option, none, some, List, [], ◌∷◌, ◌++◌}
use lbpr.Dict
use lbpr.Dict.{Dict}
use lbpr.Value.{Value}
use lbpr.Indexer.Contracts.{Job, JobCounts, JobEvent, VectorItem}
use lbpr.Indexer.Action.{Action, key_error, pure, or_raise, gets, modify, now, ◌>>=◌, ◌>>◌}

module _ {W : Type 0} where
  unfoldable pub create_job : (String → ℕ → String) → String → Action W String
  create_job digest tenant_id = do
    job_id ← pure (digest tenant_id (← now))
    created_at ← now
    updated_at ← now
    modify λ s. record s {
      jobs =
          Dict.insert job_id
            (record {
              job_id = job_id;
              tenant_id = tenant_id;
              status = "pending";
              created_at = created_at;
              updated_at = updated_at;
              counts = record { chunks_total = 0; chunks_indexed = 0; errors = 0 };
              errors = [];
            })
            s.jobs;
      events = Dict.insert job_id [] s.events;
    }
    pure job_id

  -- `self._jobs[job_id]`
  unfoldable pub get_status : String → Action W Job
  get_status job_id = do or_raise (key_error job_id) (← gets (λ s. Dict.lookup job_id s.jobs))

  -- a job after an assignment to some of its keys
  unfoldable pub put : String → Job → Action W (Unit {0})
  put job_id job = modify λ s. record s { jobs = Dict.insert job_id job s.jobs }

  unfoldable pub set_status : String → String → Action W (Unit {0})
  unfolding get_status put
  set_status job_id status = do
    job ← get_status job_id
    updated_at ← now
    put job_id (record job { status = status; updated_at = updated_at })

  unfoldable pub list_events : String → Action W (List JobEvent)
  list_events job_id = do or_raise (key_error job_id) (← gets (λ s. Dict.lookup job_id s.events))

  unfoldable pub add_event : String → String → Dict Value → Action W (Unit {0})
  unfolding get_status put list_events
  add_event job_id event_type info = do
    ts ← now
    events ← list_events job_id
    modify λ s. record s {
      events =
          Dict.insert job_id (events ++ record { ts = ts; type = event_type; «data» = info } ∷ [])
            s.events;
    }
    updated_at ← now
    job ← get_status job_id
    put job_id (record job { updated_at = updated_at })

  -- `inc_counts(job_id, chunks_total=n)` and `inc_counts(job_id, chunks_indexed=n)`
  unfoldable pub inc_counts : String → (JobCounts → JobCounts) → Action W (Unit {0})
  unfolding get_status put
  inc_counts job_id increment = do
    job ← get_status job_id
    updated_at ← now
    put job_id (record job { counts = increment job.counts; updated_at = updated_at })

  unfoldable pub add_error : String → String → Action W (Unit {0})
  unfolding get_status put
  add_error job_id msg = do
    job ← get_status job_id
    updated_at ← now
    put job_id (record job {
      counts = record job.counts { errors = job.counts.errors + 1 };
      errors = job.errors ++ msg ∷ [];
      updated_at = updated_at;
    })

abbrev pub add_total : ℕ → JobCounts → JobCounts
add_total n c = record c { chunks_total = c.chunks_total + n }

abbrev pub add_indexed : ℕ → JobCounts → JobCounts
add_indexed n c = record c { chunks_indexed = c.chunks_indexed + n }

-- the vector store: namespaces, and the items of each by their ids
abbrev pub VectorDb : Type 0 → Type 0
VectorDb F = Dict (Dict (VectorItem F))

module _ {F : Type 0} where
  unfoldable pub put_items : List (VectorItem F) → Dict (VectorItem F) → Dict (VectorItem F)
  put_items [] ns = ns
  put_items (item ∷ items) ns = put_items items (Dict.insert item.id item ns)

  -- `self._db.setdefault(namespace, {})`
  abbrev pub namespace_of : Option (Dict (VectorItem F)) → Dict (VectorItem F)
  namespace_of none = []
  namespace_of (some ns) = ns

  unfoldable pub upsert : String → List (VectorItem F) → VectorDb F → VectorDb F
  unfolding put_items
  upsert namespace items db =
      Dict.insert namespace (put_items items (namespace_of (Dict.lookup namespace db))) db
