-- ===== src/Ingestion/Frame.antt =====
-- components/ingestionservice: the ports of ports.py, and the parts that `create_ingestion` of
-- service.py is made of. The ports are functions on a state `W` of theirs: a call returns or raises
-- with a text, and leaves some state whichever it does. `base64.b64decode` is Python's, a parameter.
use lbpr.Prelude.{ℕ, String, Bool, Option, none, some, List, [], ◌∷◌, ◌++◌, str_eq, if◌then◌else◌}
use lbpr.Prelude.Int.{ℤ, pos}
use lbpr.Dict.{Dict}
use lbpr.Value.{Value}
use lbpr.Ingestion.Contracts.{IngestionStatus, failed, IngestionItem, IngestionEvent, IngestionJob}
use lbpr.Ingestion.Repository
use lbpr.Ingestion.Repository.{Repo, tick}

pub data Answer (A : Type 0) : Type 0 where
  returns : A → Answer A
  raises : String → Answer A

-- one of the dicts that the indexer is given
pub record IndexItem : Type 0 where
  pub blob_uri : String
  pub metadata_id : Option String
  pub filename : Option String
  pub content_type : Option String
  pub size_bytes : Option ℕ

pub record Ports (W : Type 0) : Type 0 where
  pub b64decode : String → Answer (List ℕ)
  -- tenant, path hint, bytes, content type
  pub put_bytes : String → String → List ℕ → String → W → Answer String × W
  -- tenant, uri, file name, content type, size, and whether `extra` says "file_ref"
  pub upsert_file : String → String → String → String → ℤ → Bool → W → Answer String × W
  pub create_index_job : String → List IndexItem → W → Answer String × W

-- the local variables `job` and `items`, the repository and the state of the ports
pub record Frame (W : Type 0) : Type 0 where
  pub job : IngestionJob
  pub items : List IngestionItem
  pub repo : Repo
  pub world : W

-- a stretch of the method goes on, or returns the job
pub data Flow (W : Type 0) : Type 0 where
  goes_on : Frame W → Flow W
  stops : Frame W → Flow W

abbrev pub null_or : Option String → Value
null_or none = Value.null
null_or (some t) = Value.text t

abbrev pub size_value : Option ℕ → Value
size_value none = Value.null
size_value (some n) = Value.int (pos n)

-- `item.dict()`
unfoldable pub item_dict : IngestionItem → Dict Value
item_dict item =
    ("kind", Value.text item.kind)
    ∷ ("filename", null_or item.filename)
    ∷ ("blob_uri", null_or item.blob_uri)
    ∷ ("content_type", null_or item.content_type)
    ∷ ("size_bytes", size_value item.size_bytes)
    ∷ ("metadata_id", null_or item.metadata_id)
    ∷ []

-- `if it.blob_uri`
abbrev pub entry_of : IngestionItem → Option String → List IndexItem
entry_of item none = []
entry_of item (some uri) =
    if str_eq uri ""
    then []
    else record {
      blob_uri = uri;
      metadata_id = item.metadata_id;
      filename = item.filename;
      content_type = item.content_type;
      size_bytes = item.size_bytes;
    }
      ∷ []

unfoldable pub index_items : List IngestionItem → List IndexItem
index_items [] = []
index_items (item ∷ items) = entry_of item item.blob_uri ++ index_items items

module _ {W : Type 0} where
  abbrev pub save : Frame W → Frame W
  save s = let (job, repo) = Repository.save_job s.job s.repo in record s { job = job; repo = repo }

  -- `self.repo.append_event(job, self._event(type_, message, data))`
  unfoldable pub log : String → String → Dict Value → Frame W → Frame W
  unfolding Repository.append_event
  log type message info s =
      let event : IngestionEvent = record {
        type = type;
        message = message;
        ts = s.repo.now 0;
        info = info;
      } in
      let (job, repo) = Repository.append_event s.job event (tick s.repo) in
      record s { job = job; repo = repo }

  -- `job.status = status; self.repo.save_job(job)`
  unfoldable pub set_status : IngestionStatus → Frame W → Frame W
  unfolding Repository.save_job
  set_status status s = save (record s { job = record s.job { status = status } })

  unfoldable pub fail : String → String → Dict Value → Frame W → Flow W
  unfolding set_status log
  fail type message info s = stops (log type message info (set_status failed s))

  -- `items.append(item)` and its event
  unfoldable pub accept : String → String → Dict Value → IngestionItem → Frame W → Flow W
  unfolding log
  accept type message info item s =
      goes_on (log type message info (record s { items = s.items ++ item ∷ [] }))

  -- a call of a port in a `try`
  abbrev pub attempt :
      {A : Type 0}
      → Answer A × W
      → (A → Frame W → Flow W)
      → (String → Frame W → Flow W)
      → Frame W
      → Flow W
  attempt (returns a, w) kept lost s = kept a (record s { world = w })
  attempt (raises e, w) kept lost s = lost e (record s { world = w })

  abbrev pub and_then : Flow W → (Frame W → Flow W) → Flow W
  and_then (goes_on s) k = k s
  and_then (stops s) k = stops s

  -- a `for` loop over a list
  unfoldable pub each : {A : Type 0} → (A → Frame W → Flow W) → List A → Frame W → Flow W
  each body [] s = goes_on s
  each body (x ∷ xs) s = and_then (body x s) (each body xs)
