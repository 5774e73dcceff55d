-- ===== src/Ingestion/Service.antt =====
-- components/ingestionservice/service.py: `IngestionService`, with `InMemoryIngestionRepo`.
use lbpr.Prelude.{
  ℕ, String, true, false, Option, none, some, List, [], ◌∷◌, length, ◌==◌, if◌then◌else◌,
}
use lbpr.Prelude.Int.{pos, negsuc}
use lbpr.Value.{Value}
use lbpr.Ingestion.Contracts.{
  running, submitted_to_indexer, InlineFile, FileRef, CreateIngestionRequest, or_empty, total_items,
  IngestionItem,
}
use lbpr.Ingestion.Repository
use lbpr.Ingestion.Repository.{Repo, tick}
use lbpr.Ingestion.Frame.{
  Ports, Frame, Flow, item_dict, index_items, save, log, set_status, fail, accept, attempt,
  and_then, each, goes_on, stops,
}

module _ {W : Type 0} where
  module _ (ports : Ports W) (tenant_id : String) where
    abbrev pub decode_failed : InlineFile → String → Frame W → Flow W
    decode_failed f e =
        fail "file.decode_failed" "Base64 decode failed"
          (("filename", Value.text f.filename) ∷ ("error", Value.text e) ∷ [])

    abbrev pub put_failed : InlineFile → String → Frame W → Flow W
    put_failed f e =
        fail "blob.put_failed" "Blob storage put failed"
          (("filename", Value.text f.filename) ∷ ("error", Value.text e) ∷ [])

    abbrev pub upsert_failed : String → String → String → Frame W → Flow W
    upsert_failed filename blob_uri e = fail "metadata.upsert_failed" "Metadata upsert failed" (
        ("filename", Value.text filename)
        ∷ ("blob_uri", Value.text blob_uri)
        ∷ ("error", Value.text e)
        ∷ [])

    abbrev pub inline_item : InlineFile → String → ℕ → String → IngestionItem
    inline_item f blob_uri size metadata_id = record {
      kind = "inline_file";
      filename = some f.filename;
      blob_uri = some blob_uri;
      content_type = some f.content_type;
      size_bytes = some size;
      metadata_id = some metadata_id;
    }

    abbrev pub file_ingested : InlineFile → String → ℕ → String → Frame W → Flow W
    file_ingested f blob_uri size metadata_id =
        let item = inline_item f blob_uri size metadata_id in
        accept "file.ingested" "Inline file ingested" (item_dict item) item

    -- the three stages of a round of the first loop, the last one first
    unfoldable pub register_file : InlineFile → List ℕ → String → Frame W → Flow W
    unfolding accept fail item_dict
    register_file f raw blob_uri s =
        attempt
          (ports.upsert_file tenant_id blob_uri f.filename f.content_type (pos (length raw)) false
            s.world)
          (file_ingested f blob_uri (length raw)) (upsert_failed f.filename blob_uri) s

    unfoldable pub store_file : InlineFile → List ℕ → Frame W → Flow W
    unfolding register_file
    store_file f raw s =
        attempt (ports.put_bytes tenant_id f.filename raw f.content_type s.world)
          (register_file f raw) (put_failed f) s

    unfoldable pub ingest_file : InlineFile → Frame W → Flow W
    unfolding store_file
    ingest_file f s =
        attempt (ports.b64decode f.bytes_b64, s.world) (store_file f) (decode_failed f) s

    abbrev pub ref_item : FileRef → String → IngestionItem
    ref_item r metadata_id = record {
      kind = "file_ref";
      filename = some r.filename;
      blob_uri = some r.blob_uri;
      content_type = some r.content_type;
      size_bytes = none;
      metadata_id = some metadata_id;
    }

    abbrev pub ref_registered : FileRef → String → Frame W → Flow W
    ref_registered r metadata_id =
        let item = ref_item r metadata_id in
        accept "file.ref_registered" "File ref registered" (item_dict item) item

    -- a round of the second loop; the size is -1, unknown
    unfoldable pub register_ref : FileRef → Frame W → Flow W
    unfolding accept fail item_dict
    register_ref r s =
        attempt
          (ports.upsert_file tenant_id r.blob_uri r.filename r.content_type (negsuc 0) true s.world)
          (ref_registered r) (upsert_failed r.filename r.blob_uri) s

    abbrev pub url_item : String → IngestionItem
    url_item u = record {
      kind = "url";
      filename = none;
      blob_uri = some u;
      content_type = none;
      size_bytes = none;
      metadata_id = none;
    }

    -- a round of the third loop
    unfoldable pub accept_url : String → Frame W → Flow W
    unfolding accept
    accept_url u =
        accept "url.accepted" "URL accepted (fetch not implemented)" (("url", Value.text u) ∷ [])
          (url_item u)

    -- the job is submitted
    unfoldable pub submitted : String → Frame W → Flow W
    unfolding set_status log
    submitted index_job_id s =
        let s' : Frame W = record s { job = record s.job { index_job_id = some index_job_id } } in
        stops (
          log "indexer.submitted" "Submitted to indexer"
            (("index_job_id", Value.text index_job_id) ∷ []) (set_status submitted_to_indexer s'))

    abbrev pub create_failed : String → Frame W → Flow W
    create_failed e =
        fail "indexer.create_failed" "Indexer job creation failed" (("error", Value.text e) ∷ [])

    -- from `job.items = items` on
    unfoldable pub submit : Frame W → Flow W
    unfolding submitted fail index_items Repository.save_job
    submit s =
        let s' : Frame W = save (record s { job = record s.job { items = s.items } }) in
        attempt (ports.create_index_job tenant_id (index_items s'.items) s'.world) submitted
          create_failed s'

    -- the loops and the submission
    unfoldable pub process : CreateIngestionRequest → Frame W → Flow W
    unfolding each ingest_file register_ref accept_url submit
    process req s = and_then (each ingest_file (or_empty req.files) s) λ s1.
        and_then (each register_ref (or_empty req.file_refs) s1)
          λ s2. and_then (each accept_url (or_empty req.source_urls) s2) submit

    -- a new job, running
    unfoldable pub started : String → Repo → W → Frame W
    unfolding Repository.create_job set_status log
    started job_id repo w =
        let (job, repo') = Repository.create_job job_id tenant_id repo in
        let s : Frame W = record { job = job; items = []; repo = repo'; world = w } in
        log "job.running" "Processing items." []
          (set_status running (log "job.created" "Ingestion job created." [] s))

    abbrev pub frame_of : Flow W → Frame W
    frame_of (goes_on s) = s
    frame_of (stops s) = s

    -- `none` is `BadRequestError`, raised before anything is written
    unfoldable pub create_ingestion : String → CreateIngestionRequest → Repo → W → Option (Frame W)
    unfolding process started total_items
    create_ingestion job_id req repo w =
        if total_items req == 0 then none else some (frame_of (process req (started job_id repo w)))
