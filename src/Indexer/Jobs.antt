-- ===== src/Indexer/Jobs.antt =====
-- A call of `create_job` of components/indexer/service.py, from the request to the final record.
use lbpr.Prelude.{
  ℕ, String, ◌≡◌, refl, ◌∙◌, true, false, Option, some, List, [], ◌∷◌, arith, str_eq, eq_iff, inl,
  inr, ◌⊎◌, Bool-cases,
}
use lbpr.Dict.{lookup-insert_self, lookup-insert_ne}
use lbpr.Indexer.Contracts.{Chunk, CreateIndexJobRequest}
use lbpr.Indexer.Action.{State, validation, ok, err}
use lbpr.Indexer.Chunker.{chunk}
use lbpr.Indexer.Chunker.Coverage.{chunk_total}
use lbpr.Indexer.View.{View, Shows, OthersKept, set_status-Does}
use lbpr.Indexer.Store
use lbpr.Indexer.Service.{
  Ports, is_falsy, or_text, message_of, doc_meta_of, validate_payload, source_text, run, create_job,
}
use lbpr.Indexer.Settles.{Settles, Settles-raise, same_state}
use lbpr.Indexer.Outcome.{view, final_view, run-Settles}

abbrev pub no_extractor : String
no_extractor = "Text is required in first iteration (blob extraction not yet implemented)."

-- the chunks of a payload's text
abbrev pub chunks_of : CreateIndexJobRequest → Option (List Chunk)
chunks_of payload =
    chunk (or_text payload.doc.text "") payload.options.chunk_size payload.options.chunk_overlap
      (doc_meta_of payload)

module _ {F W : Type 0} (show : ℕ → String) (digest : String → ℕ → String) (ports : Ports F W)
    (payload : CreateIndexJobRequest) where
  -- the id that a call draws
  abbrev pub id_at : State W → String
  id_at s = digest payload.tenant_id (s.clock 0)

  -- the state after the job is created
  abbrev created : State W → State W
  created s = (Store.create_job digest payload.tenant_id s).1

  created-Shows : (s : State W) → Shows (id_at s) (view "pending" 0 0 [] [] s.vectors) (created s)
  unfolding Store.create_job
  created-Shows s = record {
    job = _;
    events = [];
    job_there = lookup-insert_self (id_at s) _ s.jobs;
    events_there = lookup-insert_self (id_at s) [] s.events;
    same = refl;
  }

  created_others : (s : State W) → OthersKept (id_at s) s (created s)
  unfolding Store.create_job
  created_others s j other =
      (lookup-insert_ne (id_at s) j _ s.jobs other, lookup-insert_ne (id_at s) j [] s.events other)

  -- a valid request, by how its run settles
  settled :
      (s : State W) (v : View W)
      → validate_payload payload s ≡ (ok tt, s)
      → Settles (id_at s) (run show ports payload (id_at s)) (view "running" 0 0 [] [] s.vectors) v
      → (t : State W) × (create_job show digest ports payload s ≡ (ok (id_at s), t))
        × Shows (id_at s) v t
        × OthersKept (id_at s) s t
  unfolding create_job Store.create_job
  settled s v valid settles =
      let (t, running, shown, kept) =
        set_status-Does (id_at s) (view "pending" 0 0 [] [] s.vectors) "running" (created s)
          (created-Shows s) in
      let (u, done, shown', kept') = settles t shown in
      (
        u,
        rw (valid, running, done) refl,
        shown',
        λ j other. (
          (kept' j other).0 ∙ (kept j other).0 ∙ (created_others s j other).0,
          (kept' j other).1 ∙ (kept j other).1 ∙ (created_others s j other).1,
        ),
      )

  -- A request with a tenant and a text is answered with the id of its job, whatever the embedder and
  -- the vector store do. The record of the job has ended: "completed", with as many chunks as the text
  -- has and as many indexed as have a vector, or "failed", with the one error that was raised; its
  -- events are those of the steps that were taken; and the other jobs are as they were.
  pub create_job-outcome :
      (s : State W)
      → str_eq payload.tenant_id "" ≡ false
      → is_falsy payload.doc.text ≡ false
      → (chunks : List Chunk) × (chunks_of payload ≡ some chunks)
        × ((t : State W) × (create_job show digest ports payload s ≡ (ok (id_at s), t))
            × Shows (id_at s) (final_view show ports payload (id_at s) chunks s.vectors) t
            × OthersKept (id_at s) s t)
  unfolding validate_payload
  create_job-outcome s tenant text =
      let (chunks, made) =
        chunk_total (or_text payload.doc.text "") payload.options.chunk_size
          payload.options.chunk_overlap (doc_meta_of payload) in
      (
        chunks,
        made,
        settled s _ (rw (tenant, text) refl)
            (run-Settles show ports payload (id_at s) chunks s.vectors text made),
      )

  -- A request with an uri and no text passes the validation, and its job fails, with no chunk, no call
  -- of a port and the other jobs as they were.
  create_job_without_text :
      (s : State W)
      → str_eq payload.tenant_id "" ≡ false
      → is_falsy payload.doc.text ≡ true
      → is_falsy payload.doc.blob_uri ≡ false
      → (t : State W) × (create_job show digest ports payload s ≡ (ok (id_at s), t))
        × Shows
            (id_at s)
            (view "failed" 0 0 (message_of (validation no_extractor) ∷ []) [] s.vectors)
            t
        × OthersKept (id_at s) s t
  unfolding validate_payload run source_text
  create_job_without_text s tenant text uri = settled s _ (rw (tenant, text, uri) refl) (
      Settles-raise (id_at s) (run show ports payload (id_at s)) (validation no_extractor) (
        same_state (id_at s) (run show ports payload (id_at s)) (err (validation no_extractor)) _
          (λ t. rw (text, uri) refl)))

  -- A request without a tenant, or with neither a text nor an uri, is refused by a validation error
  -- before a job is created, and nothing is written.
  create_job_refused :
      (s : State W)
      → (payload.tenant_id ≡ "")
        ⊎ ((is_falsy payload.doc.text ≡ true) × (is_falsy payload.doc.blob_uri ≡ true))
      → (text : String) × (create_job show digest ports payload s ≡ (err (validation text), s))
  unfolding create_job validate_payload
  create_job_refused s wrong = elim (Bool-cases (str_eq payload.tenant_id "")) [
    | inl nobody ↦ ("tenant_id is required.", rw nobody refl)
    | inr somebody ↦ elim wrong [
      | inl e ↦ elim (absurd somebody e) [ ]
      | inr (text, uri) ↦
          ("Either doc.text or doc.blob_uri must be provided.", rw (somebody, text, uri) refl)
    ]
  ]
    where
      absurd : str_eq payload.tenant_id "" ≡ false → payload.tenant_id ≡ "" → ⊥
      absurd other e = ground (arith, eq_iff payload.tenant_id "")
