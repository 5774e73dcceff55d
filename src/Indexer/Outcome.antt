-- ===== src/Indexer/Outcome.antt =====
-- What `create_job` leaves: the record of the job, its events and the vector store, on every path.
use Prim.Native.String.{◌++◌ as join_text}
use lbpr.Prelude.{
  ℕ, ◌+◌, min, String, ◌≡◌, refl, sym, false, some, List, [], ◌∷◌, ◌++◌, map, length, arith,
}
use lbpr.Indexer.Contracts.{Chunk, VectorItem, CreateIndexJobRequest}
use lbpr.Indexer.Action.{State, internal, ok, err, or_raise}
use lbpr.Indexer.Chunker.{chunk}
use lbpr.Indexer.View.{
  View, Does, Does-then, Does-raise, set_status-Does, add_event-Does, inc_counts-Does,
}
use lbpr.Indexer.Store
use lbpr.Indexer.Store.{add_total, add_indexed, upsert}
use lbpr.Indexer.Service.{
  Answer, returns, raises, Ports, is_falsy, or_text, namespace, doc_meta_of, make_items, from_port,
  store_items, index_chunks, source_text, run,
}
use lbpr.Indexer.Settles.{
  Settles, Settles-ok, Settles-raise, Settles-then, same_state, call_upsert-Does,
}

pub length-make_items :
    {F : Type 0} (show : ℕ → String) (payload : CreateIndexJobRequest) (job_id : String)
    (chunks : List Chunk) (vecs : List (List F))
    → length (make_items show payload job_id chunks vecs) ≡ min (length chunks) (length vecs)
unfolding make_items
length-make_items show payload job_id [] vecs = omega arith
length-make_items show payload job_id (c ∷ chunks) [] = omega arith
length-make_items show payload job_id (c ∷ chunks) (vec ∷ vecs) =
    omega (arith, length-make_items show payload job_id chunks vecs)

abbrev pub ns_of : CreateIndexJobRequest → String
ns_of payload = namespace payload.tenant_id payload.options.vector_namespace

abbrev pub view : {W : Type 0} → String → ℕ → ℕ → List String → List String → W → View W
view status total indexed errors types w = record {
  status = status;
  counts = record { chunks_total = total; chunks_indexed = indexed; errors = length errors };
  errors = errors;
  types = types;
  vectors = w;
}

abbrev pub chunked_log : List String
chunked_log = "chunking_started" ∷ "chunking_completed" ∷ []

abbrev pub embedded_log : List String
embedded_log = chunked_log ++ "embedding_started" ∷ "embedding_completed" ∷ []

abbrev pub stored_log : List String
stored_log = embedded_log ++ "upsert_started" ∷ "upsert_completed" ∷ "job_completed" ∷ []

-- the job at its end, by what the vector store answered
abbrev pub stored_view : {W : Type 0} → ℕ → ℕ → Answer (Unit {0}) × W → View W
stored_view total n (returns _, w) = view "completed" total n [] stored_log w
stored_view total n (raises text, w) =
    view "failed" total 0 (join_text "internal:" text ∷ []) (embedded_log ++ "upsert_started" ∷ [])
      w

module _ {F W : Type 0} (show : ℕ → String) (ports : Ports F W) (payload : CreateIndexJobRequest)
    (job_id : String) where
  -- and by what the embedder answered
  abbrev pub embedded_view : List Chunk → W → Answer (List (List F)) → View W
  embedded_view chunks w (raises text) =
      view "failed" (length chunks) 0 (join_text "internal:" text ∷ [])
        (chunked_log ++ "embedding_started" ∷ []) w
  embedded_view chunks w (returns vecs) =
      stored_view (length chunks) (min (length chunks) (length vecs))
        (ports.upsert (ns_of payload) (make_items show payload job_id chunks vecs) w)

  abbrev pub final_view : List Chunk → W → View W
  final_view [] w = view "completed" 0 0 [] (chunked_log ++ "job_completed" ∷ []) w
  final_view (c ∷ chunks) w =
      embedded_view (c ∷ chunks) w (ports.embed_texts (map (λ d. d.text) (c ∷ chunks)))

  stored-Settles :
      (total n : ℕ) (items : List (VectorItem F)) (w : W) (answer : Answer (Unit {0}) × W)
      → length items ≡ n
      → ports.upsert (ns_of payload) items w ≡ answer
      → Settles job_id
          (store_items ports payload job_id items)
          (view "running" total 0 [] embedded_log w)
          (stored_view total n answer)
  unfolding store_items
  stored-Settles total n items w (returns _, w') count called =
      let made : 0 + length items ≡ n = omega (arith, count) in
      Settles-then job_id _ _ tt (add_event-Does job_id _ "upsert_started" _) (
        Settles-then job_id _ _ tt
          (call_upsert-Does job_id ports (ns_of payload) items _ _ w' (ok tt) called (λ s. refl))
          (Settles-ok job_id _ (
            Does-then job_id _ _ tt (ok tt) (add_event-Does job_id _ "upsert_completed" _) (
              Does-then job_id _ _ tt (ok tt)
                (inc_counts-Does job_id _ (add_indexed (length items)))
                (Does-then job_id _ _ tt (ok tt) (add_event-Does job_id _ "job_completed" _) rw
                  (sym made) (set_status-Does job_id _ "completed"))))))
  stored-Settles total n items w (raises text, w') count called =
      Settles-then job_id _ _ tt (add_event-Does job_id _ "upsert_started" _) (
        Settles-raise job_id _ (internal text) (
          Does-raise job_id _ _ (internal text) (
            call_upsert-Does job_id ports (ns_of payload) items _ _ w' (err (internal text)) called
              (λ s. refl))))

  embedded-Settles :
      (c : Chunk) (chunks : List Chunk) (w : W) (answer : Answer (List (List F)))
      → ports.embed_texts (map (λ d. d.text) (c ∷ chunks)) ≡ answer
      → Settles job_id
          (index_chunks show ports payload job_id (c ∷ chunks))
          (view "running" (length (c ∷ chunks)) 0 [] chunked_log w)
          (embedded_view (c ∷ chunks) w answer)
  unfolding index_chunks
  embedded-Settles c chunks w (raises text) called =
      Settles-then job_id _ _ tt (add_event-Does job_id _ "embedding_started" _) (
        Settles-raise job_id _ (internal text) (
          Does-raise job_id _ _ (internal text) (
            same_state job_id (from_port (ports.embed_texts (map (λ d. d.text) (c ∷ chunks))))
              (err (internal text)) _ (λ s. rw called refl))))
  embedded-Settles c chunks w (returns vecs) called =
      Settles-then job_id _ _ tt (add_event-Does job_id _ "embedding_started" _) (
        Settles-then job_id _ _ vecs
          (same_state job_id (from_port (ports.embed_texts (map (λ d. d.text) (c ∷ chunks))))
            (ok vecs) _ (λ s. rw called refl))
          (Settles-then job_id _ _ tt (add_event-Does job_id _ "embedding_completed" _) (
            stored-Settles (length (c ∷ chunks)) (min (length (c ∷ chunks)) (length vecs))
              (make_items show payload job_id (c ∷ chunks) vecs) w
              (ports.upsert (ns_of payload) (make_items show payload job_id (c ∷ chunks) vecs) w)
              (length-make_items show payload job_id (c ∷ chunks) vecs) refl)))

  index_chunks-Settles :
      (chunks : List Chunk) (w : W)
      → Settles job_id
          (index_chunks show ports payload job_id chunks)
          (view "running" (length chunks) 0 [] chunked_log w)
          (final_view chunks w)
  unfolding index_chunks
  index_chunks-Settles [] w = Settles-ok job_id _ (
      Does-then job_id _ _ tt (ok tt) (add_event-Does job_id _ "job_completed" _)
        (set_status-Does job_id _ "completed"))
  index_chunks-Settles (c ∷ chunks) w = embedded-Settles c chunks w _ refl

  total-Does :
      (n m : ℕ) (w : W)
      → 0 + n ≡ m
      → Does job_id
          (Store.inc_counts job_id (add_total n))
          (view "running" 0 0 [] chunked_log w)
          (ok tt)
          (view "running" m 0 [] chunked_log w)
  total-Does n m w e =
      rw (sym e) (inc_counts-Does job_id (view "running" 0 0 [] chunked_log w) (add_total n))

  pub run-Settles :
      (chunks : List Chunk) (w : W)
      → is_falsy payload.doc.text ≡ false
      → chunk
          (or_text payload.doc.text "")
          payload.options.chunk_size
          payload.options.chunk_overlap
          (doc_meta_of payload)
        ≡ some chunks
      → Settles job_id
          (run show ports payload job_id)
          (view "running" 0 0 [] [] w)
          (final_view chunks w)
  unfolding run
  run-Settles chunks w text made =
      let text_there : (s : State W)
          → source_text payload s ≡ (ok (or_text payload.doc.text ""), s) =
        λ s. rw text refl in
      let chunks_there : (s : State W)
          → or_raise (internal "out of fuel")
              (chunk (or_text payload.doc.text "") payload.options.chunk_size
                payload.options.chunk_overlap (doc_meta_of payload))
              s
            ≡ (ok chunks, s) =
        λ s. rw made refl in
      Settles-then job_id _ _ (or_text payload.doc.text "") (same_state job_id _ _ _ text_there) (
        Settles-then job_id _ _ tt (add_event-Does job_id _ "chunking_started" _) (
          Settles-then job_id _ _ chunks (same_state job_id _ (ok chunks) _ chunks_there) (
            Settles-then job_id _ _ tt (add_event-Does job_id _ "chunking_completed" _) (
              Settles-then job_id _ _ tt
                (total-Does (length chunks) (length chunks) w (omega arith))
                (index_chunks-Settles chunks w)))))
