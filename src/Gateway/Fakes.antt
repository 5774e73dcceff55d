-- ===== src/Gateway/Fakes.antt =====
-- components/apigateway/routers/public.py: the fakes that stand for the services. The state is the jobs
-- of `_FakeIngest`, one object each, which the calls change where it is stored.
use lbpr.Prelude.{
  ◌+◌, String, Bool, true, false, ◌||◌, Option, none, some, List, [], ◌∷◌, length, str_eq,
  if◌then◌else◌,
}
use lbpr.Dict
use lbpr.Dict.{Dict}
use lbpr.Text.Strip.{no_text}
use lbpr.Gateway.Contracts.{
  AuthContext, CreateIngestionRequest, AppendFilesRequest, IngestionJob, FileMetadata, auth_error,
  forbidden, not_found, Result, ok, err, Action, pure,
}
use lbpr.Gateway.Ports.{
  AuthPort, RateLimiterPort, IngestionPort, SearchPort, ChatPort, MetadataPort, Ports,
}

abbrev pub Jobs : Type 0
Jobs = Dict IngestionJob

abbrev pub demo_context : AuthContext
demo_context = record {
  tenant_id = "t_demo";
  user_id = "u_demo";
  scopes = "documents:ingest" ∷ "search:query" ∷ "chat:send" ∷ [];
}

unfoldable pub verify_token : String → Result AuthContext
unfolding no_text
verify_token token =
    if no_text token || str_eq token "invalid" then err auth_error else ok demo_context

unfoldable pub holds : String → List String → Bool
holds s [] = false
holds s (t ∷ scopes) = let rest : Bool = holds s scopes in if str_eq t s then true else rest

-- no scope of the list is missing
unfoldable pub holds_all : List String → List String → Bool
unfolding holds
holds_all [] scopes = true
holds_all (s ∷ required) scopes =
    let rest : Bool = holds_all required scopes in if holds s scopes then rest else false

unfoldable pub authorize : AuthContext → List String → Result (Unit {0})
unfolding holds_all
authorize ctx scopes = if holds_all scopes ctx.scopes then ok tt else err forbidden

abbrev pub fake_auth : AuthPort
fake_auth = record { verify_token = verify_token; authorize = authorize }

abbrev pub noop_rl : RateLimiterPort Jobs
noop_rl = record { check = λ key. pure tt; consume = λ key. pure tt }

abbrev pub new_job : CreateIngestionRequest → IngestionJob
new_job req = record {
  job_id = "job_1";
  status = "pending";
  files_total = 0;
  files_ingested = 0;
  created_at = "now";
  updated_at = "now";
  tags = req.tags;
}

abbrev pub change :
    String → (IngestionJob → IngestionJob) → Option IngestionJob → Action Jobs IngestionJob
change job_id f none jobs = (err not_found, jobs)
change job_id f (some job) jobs = (ok (f job), Dict.insert job_id (f job) jobs)

unfoldable pub fake_create_job : AuthContext → CreateIngestionRequest → Action Jobs IngestionJob
fake_create_job ctx req jobs = (ok (new_job req), Dict.insert "job_1" (new_job req) jobs)

unfoldable pub fake_append_files :
    AuthContext → String → AppendFilesRequest → Action Jobs IngestionJob
fake_append_files ctx job_id req jobs =
    change job_id
      (λ job. record job {
        files_total = job.files_total + (length req.upload_tokens + length req.uris);
        updated_at = "now";
      })
      (Dict.lookup job_id jobs) jobs

unfoldable pub fake_finalize_job : AuthContext → String → Action Jobs IngestionJob
fake_finalize_job ctx job_id jobs =
    change job_id
      (λ job. record job {
        status = "completed";
        files_ingested = job.files_total;
        updated_at = "now";
      })
      (Dict.lookup job_id jobs) jobs

abbrev pub found_job : Option IngestionJob → Result IngestionJob
found_job none = err not_found
found_job (some job) = ok job

unfoldable pub fake_get_job : AuthContext → String → Action Jobs IngestionJob
fake_get_job ctx job_id jobs = (found_job (Dict.lookup job_id jobs), jobs)

abbrev pub fake_ingest : IngestionPort Jobs
fake_ingest = record {
  create_job = fake_create_job;
  append_files = fake_append_files;
  finalize_job = λ ctx job_id req. fake_finalize_job ctx job_id;
  get_job = fake_get_job;
}

abbrev pub fake_search : SearchPort Jobs
fake_search = record {
  search = λ ctx req. pure (record { query = req.query; hits = []; top_k = req.top_k });
}

abbrev pub fake_chat : ChatPort Jobs
fake_chat = record {
  completion = λ ctx req. pure (record {
    choices =
        record {
          index = 0;
          message = record { role = "assistant"; content = "Hello!" };
          finish_reason = some "stop";
        }
        ∷ [];
  });
}

abbrev pub file_metadata : String → List String → FileMetadata
file_metadata file_id tags = record {
  file_id = file_id;
  size_bytes = 123;
  mime_type = "text/plain";
  tags = tags;
  created_at = "now";
  updated_at = "now";
}

abbrev pub fake_meta : MetadataPort Jobs
fake_meta = record {
  get_file_metadata = λ ctx file_id. pure (file_metadata file_id ("demo" ∷ []));
  set_tags = λ ctx file_id tags. pure (file_metadata file_id tags);
}

abbrev pub fakes : Ports Jobs
fakes = record {
  auth = fake_auth;
  rl = noop_rl;
  ing = fake_ingest;
  search = fake_search;
  chat = fake_chat;
  meta = fake_meta;
}
