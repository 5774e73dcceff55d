-- ===== src/Ingestion/Http.antt =====
-- components/ingestionservice/http.py: the routes. The tenant comes from the header `X-Tenant-Id`, an
-- argument here; the user's header is read and passed to nobody.
use lbpr.Prelude.{ℕ, String, Option, none, some, List}
use lbpr.Ingestion.Contracts.{IngestionEvent, IngestionJob, CreateIngestionRequest}
use lbpr.Ingestion.Repository
use lbpr.Ingestion.Repository.{Repo}
use lbpr.Ingestion.Frame.{Ports, Frame}
use lbpr.Ingestion.Service.{create_ingestion}

pub data Response (A : Type 0) : Type 0 where
  success : ℕ → A → Response A
  http_error : ℕ → String → Response A

abbrev pub tenant_of : Option String → String
tenant_of none = "test-tenant"
tenant_of (some tenant_id) = tenant_id

abbrev pub created : {W : Type 0} → Option (Frame W) → Response IngestionJob
created none = http_error 400 "No items supplied: provide files, file_refs, or source_urls."
created (some s) = success 201 s.job

unfoldable pub post_ingestion :
    {W : Type 0}
    → Ports W
    → String
    → Option String
    → CreateIngestionRequest
    → Repo
    → W
    → Response IngestionJob
post_ingestion ports job_id header req repo w =
    created (create_ingestion ports (tenant_of header) job_id req repo w)

abbrev pub found : {A : Type 0} → Option IngestionJob → A → Response A
found none a = http_error 404 "Ingestion job not found"
found (some job) a = success 200 a

abbrev pub job_found : Option IngestionJob → Response IngestionJob
job_found none = http_error 404 "Ingestion job not found"
job_found (some job) = success 200 job

unfoldable pub get_ingestion : Option String → String → Repo → Response IngestionJob
get_ingestion header job_id repo = job_found (Repository.get_job (tenant_of header) job_id repo)

unfoldable pub get_events : Option String → String → Repo → Response (List IngestionEvent)
get_events header job_id repo =
    found (Repository.get_job (tenant_of header) job_id repo)
      (Repository.list_events (tenant_of header) job_id repo)
