-- ===== src/Indexer/Tests.antt =====
-- A small document through the indexer, and its theorems there.
use Prim.Native.String.{◌++◌ as join_text}
use lbpr.Prelude.{
  ℕ, take, drop, String, ◌≡◌, ◌≢◌, refl, none, some, List, [], ◌∷◌, ◌++◌, arith, eq_iff,
}
use lbpr.Dict
use lbpr.Dict.{Dict, lookup, insert}
use lbpr.Text.{split, join}
use lbpr.Indexer.Contracts.{Chunk, VectorItem, CreateIndexJobRequest}
use lbpr.Indexer.Action.{State, ok}
use lbpr.Indexer.Chunker.{chunk}
use lbpr.Indexer.Chunker.Coverage.{get_elem?, chunk_covers}
use lbpr.Indexer.View.{Shows, OthersKept}
use lbpr.Indexer.Store.{VectorDb, upsert}
use lbpr.Indexer.Service.{Ports, returns, create_job}
use lbpr.Indexer.Outcome.{final_view}
use lbpr.Indexer.Jobs.{chunks_of, create_job-outcome}
use lbpr.Indexer.Upsert.{fetch, upsert_last_wins}

abbrev sample : String
sample = "a b  c d e"

third : get_elem? 3 (split sample) ≡ some "d"
unfolding split
third = refl

chunk_covers_example :
    (chunks : List Chunk) × (chunk sample 3 1 [] ≡ some chunks)
    × ((c : Chunk) × (ws : List String) × (get_elem? 1 chunks ≡ some c)
        × (c.idx ≡ 1)
        × (c.text ≡ join " " ws)
        × (ws ≡ take 3 (drop 2 (split sample)))
        × (get_elem? 1 ws ≡ some "d"))
chunk_covers_example = chunk_covers sample 3 1 [] 3 "d" (omega arith) third

abbrev payload : CreateIndexJobRequest
payload = record {
  tenant_id = "t1";
  doc = record {
    doc_id = some "d1";
    blob_uri = none;
    text = some sample;
    fingerprint = none;
    metadata = [];
  };
  options = record { chunk_size = 3; chunk_overlap = 1; vector_namespace = some "docs" };
}

abbrev start : State (VectorDb ℕ)
start = record { jobs = []; events = []; vectors = []; clock = λ n. n }

-- an embedder that returns one vector, and the store in memory
abbrev ports : Ports ℕ (VectorDb ℕ)
ports = record {
  embed_texts = λ texts. returns ((1 ∷ 2 ∷ []) ∷ []);
  upsert = λ ns items db. (returns tt, upsert ns items db);
}

abbrev digest : String → ℕ → String
digest tenant_id time = join_text "idx_" tenant_id

abbrev show : ℕ → String
show n = "0"

create_job-outcome_example :
    (chunks : List Chunk) × (chunks_of payload ≡ some chunks)
    × ((t : State (VectorDb ℕ)) × (create_job show digest ports payload start ≡ (ok "idx_t1", t))
        × Shows "idx_t1" (final_view show ports payload "idx_t1" chunks []) t
        × OthersKept "idx_t1" start t)
create_job-outcome_example = create_job-outcome show digest ports payload start refl refl

abbrev item : String → VectorItem ℕ
item id = record { id = id; values = 3 ∷ []; metadata = [] }

abbrev id_1 : String
id_1 = "d1:0"

abbrev id_2 : String
id_2 = "d1:1"

differs : id_2 ≢ id_1
differs = ground (arith, eq_iff "d1:1" "d1:0")

abbrev id_3 : String
id_3 = "d2:0"

differs_1 : id_1 ≢ id_3
differs_1 = ground (arith, eq_iff "d1:0" "d2:0")

differs_2 : id_2 ≢ id_3
differs_2 = ground (arith, eq_iff "d1:1" "d2:0")

upsert_last_wins_example :
    let db' = upsert id_2 ([] ++ item id_1 ∷ item id_2 ∷ []) [] in
    (fetch id_2 id_1 db' ≡ some (item id_1))
    × (fetch id_2 id_3 db' ≡ fetch {F = ℕ} id_2 id_3 [])
    × (Dict.lookup id_3 db' ≡ Dict.lookup {V = Dict (VectorItem ℕ)} id_3 [])
upsert_last_wins_example =
    upsert_last_wins id_2 id_3 id_3 [] (item id_2 ∷ []) (item id_1) [] (differs, tt)
      (differs_1, (differs_2, tt)) differs_2
