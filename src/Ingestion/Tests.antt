-- ===== src/Ingestion/Tests.antt =====
-- Two ingestions, one that is submitted and one that fails half way, and the theorems there.
use Prim.Native.String.{◌++◌ as join_text}
use lbpr.Prelude.{
  ℕ, ◌+◌, String, ◌≡◌, ◌≢◌, refl, Option, none, some, List, [], ◌∷◌, map, arith, eq_iff,
}
use lbpr.Ingestion.Contracts.{CreateIngestionRequest, InlineFile, FileRef}
use lbpr.Ingestion.Repository.{Repo}
use lbpr.Ingestion.Frame.{Ports, Frame, returns, raises}
use lbpr.Ingestion.Service.{create_ingestion}
use lbpr.Ingestion.Loops.{asked}
use lbpr.Ingestion.Outcome.{Ended, create_ingestion-outcome}
use lbpr.Ingestion.Http.{success, http_error, post_ingestion, get_ingestion, get_events}
use lbpr.Ingestion.Tenants.{create_ingestion_shown}

abbrev file : InlineFile
file = record { filename = "a.txt"; bytes_b64 = "aGk="; content_type = "text/plain" }

abbrev ref : FileRef
ref = record { filename = "b.txt"; blob_uri = "blob://b"; content_type = "text/plain" }

abbrev req : CreateIngestionRequest
req = record {
  files = some (file ∷ []);
  file_refs = some (ref ∷ []);
  source_urls = some ("http://c" ∷ []);
}

-- ports that count their calls
abbrev ports : Ports ℕ
ports = record {
  b64decode = λ text. returns (104 ∷ 105 ∷ []);
  put_bytes = λ tenant_id path raw content_type n. (returns (join_text "blob://" path), n + 1);
  upsert_file =
      λ tenant_id uri filename content_type size extra n. (returns (join_text "m:" uri), n + 1);
  create_index_job = λ tenant_id items n. (returns "idx", n + 1);
}

-- the indexer is down
abbrev broken : Ports ℕ
broken = record ports { create_index_job = λ tenant_id items n. (raises "down", n + 1) }

abbrev fresh : Repo
fresh = record { jobs = []; now = λ n. n }

abbrev of_frame : Option (Frame ℕ) → ℕ × List String
of_frame none = (0, [])
of_frame (some s) = (s.world, map (λ e. e.type) s.job.events)

all_types : of_frame (create_ingestion ports "t1" "j1" req fresh 0) ≡ (
  4,
  "job.created" ∷ "job.running" ∷ "file.ingested" ∷ "file.ref_registered" ∷ "url.accepted"
      ∷ "indexer.submitted" ∷ [],
)
unfolding create_ingestion
all_types = refl

nonempty : asked req ≢ []
nonempty e = cc

create_ingestion-outcome_example :
    (s : Frame ℕ) × (create_ingestion broken "t1" "j1" req fresh 0 ≡ some s)
    × Ended broken "t1" "j1" fresh (asked req) s
create_ingestion-outcome_example = create_ingestion-outcome broken "t1" "j1" fresh req 0 nonempty

abbrev t1 : Option String
t1 = some "t1"

abbrev t2 : String
t2 = "t2"

abbrev after : Frame ℕ
after = (create_ingestion-outcome broken "t1" "j1" fresh req 0 nonempty).0

made : create_ingestion broken "t1" "j1" req fresh 0 ≡ some after
made = (create_ingestion-outcome broken "t1" "j1" fresh req 0 nonempty).1

foreign : "t1" ≢ t2
foreign = ground (arith, eq_iff "t1" "t2")

abbrev j2 : String
j2 = "j2"

elsewhere : "j1" ≢ j2
elsewhere = ground (arith, eq_iff "j1" "j2")

create_ingestion_shown_example :
    (post_ingestion broken "j1" t1 req fresh 0 ≡ success 201 after.job)
    × (get_ingestion t1 "j1" after.repo ≡ success 200 after.job)
    × (get_events t1 "j1" after.repo ≡ success 200 after.job.events)
    × (get_ingestion (some t2) "j1" after.repo ≡ http_error 404 "Ingestion job not found")
    × (get_events (some t2) "j1" after.repo ≡ http_error 404 "Ingestion job not found")
    × (get_ingestion t1 j2 after.repo ≡ get_ingestion t1 j2 fresh)
    × (get_events t1 j2 after.repo ≡ get_events t1 j2 fresh)
create_ingestion_shown_example =
    create_ingestion_shown broken t1 (some t2) t1 "j1" j2 fresh req 0 after made foreign elsewhere
