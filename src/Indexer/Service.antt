-- ===== src/Indexer/Service.antt =====
-- components/indexer/service.py: `IndexerService`, with `SimpleChunker` and `InMemoryJobStore`. The
-- embedder and the vector store are ports: each call returns, or raises with a text, and a call of the
-- vector store leaves it in some state whichever it does. Logging is left out.
use Prim.Native.String.{◌++◌ as join_text}
use lbpr.Prelude.{
  ℕ, String, Bool, true, Option, none, some, List, [], ◌∷◌, map, length, str_eq, if◌then◌else◌,
}
use lbpr.Prelude.Int.{pos}
use lbpr.Dict
use lbpr.Dict.{Dict}
use lbpr.Value.{Value}
use lbpr.Indexer.Contracts.{Chunk, VectorItem, CreateIndexJobRequest, Job, JobEvent}
use lbpr.Indexer.Action.{
  State, Error, validation, internal, key_error, Result, ok, err, Action, pure, raise, or_raise,
  catch, ◌>>=◌, ◌>>◌,
}
use lbpr.Indexer.Chunker.{chunk}
use lbpr.Indexer.Store
use lbpr.Indexer.Store.{set_status, add_event, inc_counts, add_error, add_total, add_indexed}

-- a port's call: its answer, or the text of what it raises
pub data Answer (A : Type 0) : Type 0 where
  returns : A → Answer A
  raises : String → Answer A

pub record Ports (F W : Type 0) : Type 0 where
  pub embed_texts : List String → Answer (List (List F))
  pub upsert : String → List (VectorItem F) → W → Answer (Unit {0}) × W

-- `not x` for an optional text
abbrev pub is_falsy : Option String → Bool
is_falsy none = true
is_falsy (some t) = str_eq t ""

abbrev pub text_or_null : Option String → Value
text_or_null none = Value.null
text_or_null (some t) = Value.text t

abbrev pub number : ℕ → Value
number n = Value.int (pos n)

-- `x or d`
abbrev pub or_text : Option String → String → String
or_text none d = d
or_text (some t) d = if str_eq t "" then d else t

unfoldable pub namespace : String → Option String → String
namespace tenant_id maybe_ns = join_text tenant_id (join_text ":" (or_text maybe_ns "default"))

unfoldable pub doc_meta_of : CreateIndexJobRequest → Dict Value
doc_meta_of payload = Dict.insert "tenant_id" (Value.text payload.tenant_id) (
    Dict.insert "fingerprint" (text_or_null payload.doc.fingerprint)
      (Dict.insert "doc_id" (text_or_null payload.doc.doc_id) payload.doc.metadata))

abbrev pub base_of : CreateIndexJobRequest → String
base_of payload = or_text payload.doc.doc_id (or_text payload.doc.fingerprint "doc")

-- `str(chunk.idx)` is `show`, a parameter
module _ (show : ℕ → String) where
  unfoldable pub make_item_id : CreateIndexJobRequest → Chunk → String
  make_item_id payload c = join_text (base_of payload) (join_text ":" (show c.idx))

  module _ {F : Type 0} where
    -- the `for` loop over `zip(chunks, embeddings)`, which ends with the shorter of the two
    unfoldable pub make_items :
        CreateIndexJobRequest → String → List Chunk → List (List F) → List (VectorItem F)
    unfolding make_item_id
    make_items payload job_id [] vecs = []
    make_items payload job_id (c ∷ chunks) [] = []
    make_items payload job_id (c ∷ chunks) (vec ∷ vecs) =
        record {
          id = make_item_id payload c;
          values = vec;
          metadata = Dict.insert "job_id" (Value.text job_id) c.metadata;
        }
        ∷ make_items payload job_id chunks vecs

-- the text of the two `except` clauses; the text of a `KeyError` is its key in quotes
abbrev pub message_of : Error → String
message_of (validation text) = join_text "validation:" text
message_of (internal text) = join_text "internal:" text
message_of (key_error key) = join_text "internal:'" (join_text key "'")

module _ {W : Type 0} where
  abbrev pub from_port : {A : Type 0} → Answer A → Action W A
  from_port (returns a) s = (ok a, s)
  from_port (raises text) s = (err (internal text), s)

  unfoldable pub validate_payload : CreateIndexJobRequest → Action W (Unit {0})
  validate_payload payload =
      if str_eq payload.tenant_id ""
      then raise (validation "tenant_id is required.")
      else if is_falsy payload.doc.text
      then if is_falsy payload.doc.blob_uri
        then raise (validation "Either doc.text or doc.blob_uri must be provided.")
        else pure tt
      else pure tt

  -- `self.vector_store.upsert(...)`
  abbrev pub answered : Answer (Unit {0}) × W → State W → Result (Unit {0}) × State W
  answered (a, w) s = from_port a (record s { vectors = w })

  -- the source of the text: without a text the job fails, with an uri or not
  unfoldable pub source_text : CreateIndexJobRequest → Action W String
  source_text payload =
      if is_falsy payload.doc.text
      then if is_falsy payload.doc.blob_uri
        then raise (validation "Either 'text' or 'blob_uri' must be provided.")
        else raise (
            validation "Text is required in first iteration (blob extraction not yet implemented).")
      else pure (or_text payload.doc.text "")

  unfoldable pub fail : String → Error → Action W (Unit {0})
  fail job_id e = do add_error job_id (message_of e); set_status job_id "failed"

  unfoldable pub get_job : String → Action W Job
  get_job job_id = Store.get_status job_id

  unfoldable pub list_events : String → Action W (List JobEvent)
  list_events job_id = Store.list_events job_id

module _ {F W : Type 0} where
  unfoldable pub call_upsert : Ports F W → String → List (VectorItem F) → Action W (Unit {0})
  call_upsert ports ns items s = answered (ports.upsert ns items s.vectors) s

  -- from the vector items on
  unfoldable pub store_items :
      Ports F W → CreateIndexJobRequest → String → List (VectorItem F) → Action W (Unit {0})
  unfolding call_upsert
  store_items ports payload job_id items = do
    add_event job_id "upsert_started" (
        ("namespace", Value.text (namespace payload.tenant_id payload.options.vector_namespace))
        ∷ ("count", number (length items))
        ∷ [])
    call_upsert ports (namespace payload.tenant_id payload.options.vector_namespace) items
    add_event job_id "upsert_completed" (("count", number (length items)) ∷ [])
    inc_counts job_id (add_indexed (length items))
    add_event job_id "job_completed" []
    set_status job_id "completed"

  -- from the chunks on
  unfoldable pub index_chunks :
      (ℕ → String) → Ports F W → CreateIndexJobRequest → String → List Chunk → Action W (Unit {0})
  unfolding store_items
  index_chunks show ports payload job_id [] = do
    add_event job_id "job_completed" (("reason", Value.text "no_chunks") ∷ [])
    set_status job_id "completed"
  index_chunks show ports payload job_id (c ∷ chunks) = do
    add_event job_id "embedding_started" (("batch", number (length (c ∷ chunks))) ∷ [])
    embeddings ← from_port (ports.embed_texts (map (λ d. d.text) (c ∷ chunks)))
    add_event job_id "embedding_completed" (("count", number (length embeddings)) ∷ [])
    store_items ports payload job_id (make_items show payload job_id (c ∷ chunks) embeddings)

  -- the body of the `try`; a loop of the chunker that did not end would be the `none`
  unfoldable pub run :
      (ℕ → String) → Ports F W → CreateIndexJobRequest → String → Action W (Unit {0})
  unfolding source_text index_chunks
  run show ports payload job_id = do
    text ← source_text payload
    add_event job_id "chunking_started" (
        ("chunk_size", number payload.options.chunk_size)
        ∷ ("overlap", number payload.options.chunk_overlap)
        ∷ [])
    chunks ←
        or_raise (internal "out of fuel") (
          chunk text payload.options.chunk_size payload.options.chunk_overlap (doc_meta_of payload))
    add_event job_id "chunking_completed" (("count", number (length chunks)) ∷ [])
    inc_counts job_id (add_total (length chunks))
    index_chunks show ports payload job_id chunks

  unfoldable pub create_job :
      (ℕ → String) → (String → ℕ → String) → Ports F W → CreateIndexJobRequest → Action W String
  unfolding validate_payload run fail
  create_job show digest ports payload = do
    validate_payload payload
    job_id ← Store.create_job digest payload.tenant_id
    set_status job_id "running"
    catch (run show ports payload job_id) (fail job_id)
    pure job_id
