-- ===== src/Ingestion/Wants.antt =====
-- What `create_ingestion` of components/ingestionservice/service.py is asked for, and the items that
-- meet it.
use lbpr.Prelude.{ℕ, String, ◌≡◌, Bool, true, false, none, some, List, [], ◌∷◌, ◌++◌, map, length}
use lbpr.Prelude.Int.{ℤ, pos, negsuc}
use lbpr.Ingestion.Contracts.{IngestionItem, IngestionEvent, InlineFile, FileRef}
use lbpr.Ingestion.Frame.{returns, raises, Ports, IndexItem}

-- what a request asks for, one after the other
pub data Want : Type 0 where
  want_file : InlineFile → Want
  want_ref : FileRef → Want
  want_url : String → Want

abbrev pub event_of : Want → String
event_of (want_file f) = "file.ingested"
event_of (want_ref r) = "file.ref_registered"
event_of (want_url u) = "url.accepted"

abbrev pub types_of : List IngestionEvent → List String
types_of events = map (λ (e : IngestionEvent). e.type) events

module _ {W : Type 0} (ports : Ports W) (tenant_id : String) where
  -- The item is the one that was asked for: a file is decoded, stored and registered by the ports.
  abbrev pub Meets : Want → IngestionItem → Type 0
  Meets (want_file f) item =
      (raw : List ℕ) × (blob_uri : String) × (metadata_id : String) × (put : W × W) × (upsert : W
        × W)
      × (ports.b64decode f.bytes_b64 ≡ returns raw)
      × (ports.put_bytes tenant_id f.filename raw f.content_type put.0 ≡ (returns blob_uri, put.1))
      × (ports.upsert_file tenant_id blob_uri f.filename f.content_type (pos (length raw)) false
            upsert.0
          ≡ (returns metadata_id, upsert.1))
      × (item ≡ record {
        kind = "inline_file";
        filename = some f.filename;
        blob_uri = some blob_uri;
        content_type = some f.content_type;
        size_bytes = some (length raw);
        metadata_id = some metadata_id;
      })
  Meets (want_ref r) item =
      (metadata_id : String) × (upsert : W × W) × (ports.upsert_file tenant_id r.blob_uri r.filename
          r.content_type (negsuc 0) true upsert.0
        ≡ (returns metadata_id, upsert.1))
      × (item ≡ record {
        kind = "file_ref";
        filename = some r.filename;
        blob_uri = some r.blob_uri;
        content_type = some r.content_type;
        size_bytes = none;
        metadata_id = some metadata_id;
      })
  Meets (want_url u) item = item ≡ record {
    kind = "url";
    filename = none;
    blob_uri = some u;
    content_type = none;
    size_bytes = none;
    metadata_id = none;
  }

  -- the items of the wants, in their order
  abbrev pub AllMeet : List Want → List IngestionItem → Type 0
  AllMeet [] [] = Unit
  AllMeet [] (item ∷ items) = ⊥
  AllMeet (want ∷ wants) [] = ⊥
  AllMeet (want ∷ wants) (item ∷ items) = Meets want item × AllMeet wants items

  pub AllMeet-append :
      (wants : List Want) (items : List IngestionItem) (want : Want) (item : IngestionItem)
      → AllMeet wants items
      → Meets want item
      → AllMeet (wants ++ want ∷ []) (items ++ item ∷ [])
  AllMeet-append [] [] want item all last = (last, tt)
  AllMeet-append [] (x ∷ items) want item all last = elim all [ ]
  AllMeet-append (w ∷ wants) [] want item all last = elim all [ ]
  AllMeet-append (w ∷ wants) (x ∷ items) want item (first, all) last =
      (first, AllMeet-append wants items want item all last)

  -- A call of a port, for the tenant, raises.
  pub data Raised : Type 0 where
    decode_raised : {t e : String} → ports.b64decode t ≡ raises e → Raised
    put_raised :
        {path content_type e : String} {raw : List ℕ} {u v : W}
        → ports.put_bytes tenant_id path raw content_type u ≡ (raises e, v)
        → Raised
    upsert_raised :
        {uri filename content_type e : String} {size : ℤ} {extra : Bool} {u v : W}
        → ports.upsert_file tenant_id uri filename content_type size extra u ≡ (raises e, v)
        → Raised
    index_raised :
        {items : List IndexItem} {e : String} {u v : W}
        → ports.create_index_job tenant_id items u ≡ (raises e, v)
        → Raised
