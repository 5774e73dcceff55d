-- ===== src/Ingestion/Loops.antt =====
-- The three loops of `create_ingestion` of components/ingestionservice/service.py, on every answer of
-- the ports.
use lbpr.Prelude.{ℕ, ◌≡◌, refl, ap, String, List, [], ◌∷◌, ◌++◌, map, length, true, false}
use lbpr.Prelude.Int.{pos, negsuc}
use lbpr.Value.{Value}
use lbpr.Dict
use lbpr.Dict.{lookup-insert_self, lookup-insert_ne}
use lbpr.Ingestion.Contracts.{CreateIngestionRequest, or_empty, InlineFile, FileRef}
use lbpr.Ingestion.Repository.{Repo}
use lbpr.Ingestion.Frame.{Ports, returns, Frame, Flow, fail, and_then, each, item_dict}
use lbpr.Ingestion.Service.{
  put_failed, upsert_failed, decode_failed, file_ingested, ref_registered, inline_item, ref_item,
  url_item, register_file, store_file, ingest_file, register_ref, accept_url,
}
use lbpr.Ingestion.Wants.{
  Want, want_file, want_ref, want_url, Raised, decode_raised, put_raised, upsert_raised,
}
use lbpr.Ingestion.Tracked.{
  Running, Fine, fail-Fine, accept-Fine, attempt-Fine, and_then-Fine, each-Fine,
}

-- the items that a request asks for, in the order in which they are taken
abbrev pub asked : CreateIngestionRequest → List Want
asked req =
    map want_file (or_empty req.files)
    ++ map want_ref (or_empty req.file_refs)
    ++ map want_url (or_empty req.source_urls)

module _ {W : Type 0} (ports : Ports W) (tenant_id job_id : String) (before : Repo) where
  abbrev pub At : List Want → Frame W → Type 0
  At = Running ports job_id tenant_id before

  abbrev pub Good : List Want → Flow W → Type 0
  Good = Fine ports job_id tenant_id before

  pub fails :
      (type message : String) (info : Dict.Dict Value) (wants wants' : List Want) (s : Frame W)
      → Raised ports tenant_id
      → At wants s
      → Good wants' (fail type message info s)
  fails = fail-Fine ports job_id tenant_id before

  register_file-Fine :
      (f : InlineFile) (raw : List ℕ) (blob_uri : String) (wants : List Want) (u v : W)
      (s : Frame W)
      → ports.b64decode f.bytes_b64 ≡ returns raw
      → ports.put_bytes tenant_id f.filename raw f.content_type u ≡ (returns blob_uri, v)
      → At wants s
      → Good (wants ++ want_file f ∷ []) (register_file ports tenant_id f raw blob_uri s)
  unfolding register_file
  register_file-Fine f raw blob_uri wants u v s decoded stored =
      attempt-Fine ports job_id tenant_id before {A = String}
        (ports.upsert_file tenant_id blob_uri f.filename f.content_type (pos (length raw)) false
          s.world)
        (file_ingested ports tenant_id f blob_uri (length raw))
        (upsert_failed ports tenant_id f.filename blob_uri) wants (wants ++ want_file f ∷ []) s
        (λ metadata_id v' w upserted.
          let item = inline_item ports tenant_id f blob_uri (length raw) metadata_id in
          accept-Fine ports job_id tenant_id before (want_file f) "Inline file ingested"
            (item_dict item) item wants w
            (raw, blob_uri, metadata_id, (u, v), (s.world, v'), decoded, stored, upserted, refl))
        (λ e v' w raised.
          fails "metadata.upsert_failed" "Metadata upsert failed" _ wants
            (wants ++ want_file f ∷ []) w (upsert_raised raised))

  store_file-Fine :
      (f : InlineFile) (raw : List ℕ) (wants : List Want) (s : Frame W)
      → ports.b64decode f.bytes_b64 ≡ returns raw
      → At wants s
      → Good (wants ++ want_file f ∷ []) (store_file ports tenant_id f raw s)
  unfolding store_file
  store_file-Fine f raw wants s decoded =
      attempt-Fine ports job_id tenant_id before {A = String}
        (ports.put_bytes tenant_id f.filename raw f.content_type s.world)
        (register_file ports tenant_id f raw) (put_failed ports tenant_id f) wants
        (wants ++ want_file f ∷ []) s
        (λ blob_uri v w stored. register_file-Fine f raw blob_uri wants s.world v w decoded stored)
        (λ e v w raised.
          fails "blob.put_failed" "Blob storage put failed" _ wants (wants ++ want_file f ∷ []) w
            (put_raised raised))

  ingest_file-Fine :
      (f : InlineFile) (wants : List Want) (s : Frame W)
      → At wants s
      → Good (wants ++ want_file f ∷ []) (ingest_file ports tenant_id f s)
  unfolding ingest_file
  ingest_file-Fine f wants s =
      attempt-Fine ports job_id tenant_id before {A = List ℕ} (ports.b64decode f.bytes_b64, s.world)
        (store_file ports tenant_id f) (decode_failed ports tenant_id f) wants
        (wants ++ want_file f ∷ []) s
        (λ raw v w decoded. store_file-Fine f raw wants w (ap (λ p. p.0) decoded))
        (λ e v w raised.
          fails "file.decode_failed" "Base64 decode failed" _ wants (wants ++ want_file f ∷ []) w
            (decode_raised (ap (λ p. p.0) raised)))

  register_ref-Fine :
      (r : FileRef) (wants : List Want) (s : Frame W)
      → At wants s
      → Good (wants ++ want_ref r ∷ []) (register_ref ports tenant_id r s)
  unfolding register_ref
  register_ref-Fine r wants s =
      attempt-Fine ports job_id tenant_id before {A = String}
        (ports.upsert_file tenant_id r.blob_uri r.filename r.content_type (negsuc 0) true s.world)
        (ref_registered ports tenant_id r) (upsert_failed ports tenant_id r.filename r.blob_uri)
        wants (wants ++ want_ref r ∷ []) s
        (λ metadata_id v w upserted.
          let item = ref_item ports tenant_id r metadata_id in
          accept-Fine ports job_id tenant_id before (want_ref r) "File ref registered"
            (item_dict item) item wants w (metadata_id, (s.world, v), upserted, refl))
        (λ e v w raised.
          fails "metadata.upsert_failed" "Metadata upsert failed" _ wants (wants ++ want_ref r ∷ [])
            w (upsert_raised raised))

  accept_url-Fine :
      (u : String) (wants : List Want) (s : Frame W)
      → At wants s
      → Good (wants ++ want_url u ∷ []) (accept_url ports tenant_id u s)
  unfolding accept_url
  accept_url-Fine u wants s =
      accept-Fine ports job_id tenant_id before (want_url u) "URL accepted (fetch not implemented)"
        _ (url_item ports tenant_id u) wants s refl

  abbrev pub loops : CreateIngestionRequest → Frame W → Flow W
  loops req s =
      and_then
        (and_then (each (ingest_file ports tenant_id) (or_empty req.files) s)
          (each (register_ref ports tenant_id) (or_empty req.file_refs)))
        (each (accept_url ports tenant_id) (or_empty req.source_urls))

  -- the three loops, from no item on
  pub loops-Fine :
      (req : CreateIngestionRequest) (s : Frame W) → At [] s → Good (asked req) (loops req s)
  loops-Fine req s h =
      let files = map want_file (or_empty req.files) in
      let refs = map want_ref (or_empty req.file_refs) in
      let urls = map want_url (or_empty req.source_urls) in
      and_then-Fine ports job_id tenant_id before _ _ (files ++ refs) ((files ++ refs) ++ urls)
        (and_then-Fine ports job_id tenant_id before _ _ files (files ++ refs)
          (each-Fine ports job_id tenant_id before want_file (ingest_file ports tenant_id)
            ingest_file-Fine (or_empty req.files) [] s h)
          (λ u.
            each-Fine ports job_id tenant_id before want_ref (register_ref ports tenant_id)
              register_ref-Fine (or_empty req.file_refs) files u))
        (λ u.
          each-Fine ports job_id tenant_id before want_url (accept_url ports tenant_id)
            accept_url-Fine (or_empty req.source_urls) (files ++ refs) u)
