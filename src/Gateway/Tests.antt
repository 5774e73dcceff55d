-- ===== src/Gateway/Tests.antt =====
-- Requests to the gateway whose services are the fakes.
use lbpr.Prelude.{◌≡◌, refl, String, none, some, [], ◌∷◌}
use lbpr.Dict.{insert, lookup}
use lbpr.Gateway.Contracts.{CreateIngestionRequest, auth_error, to_payload, not_found}
use lbpr.Gateway.Fakes.{
  Jobs, fakes, new_job, fake_create_job, verify_token, authorize, fake_append_files,
}
use lbpr.Gateway.Routes.{RequestState, uwf_ok, uwf_err, create_ingestion, append_files, auth_ctx}
use lbpr.Text.{is_space}
use lbpr.Text.Parts.{has_char}
use lbpr.Text.Strip.{strip}
use lbpr.Gateway.Bearer.{header_of, bad_token}
use lbpr.Gateway.Gate.{IsTurnedAway, to_create, IsUnserved-IsTurnedAway}

abbrev lower : String → String
lower s = s

abbrev request : RequestState
request = record { trace_id = some "t"; request_id = none; tenant_id = none }

abbrev body : CreateIngestionRequest
body = record { source_hint = none; client_job_id = none; tags = "a" ∷ [] }

abbrev kept : Jobs
kept = ("job_1", new_job body) ∷ []

IsUnserved-IsTurnedAway_example :
    IsTurnedAway lower fakes request
      (some (header_of "bearer" "invalid"))
      kept
      auth_error
      (to_create body)
unfolding verify_token has_char strip is_space
IsUnserved-IsTurnedAway_example =
    IsUnserved-IsTurnedAway lower fakes request (some (header_of "bearer" "invalid")) kept
      auth_error (to_create body) (bad_token "bearer" "invalid" refl ("invalid", refl) refl)

-- A job is created for a token that the fake accepts.
token_accepted :
    create_ingestion lower fakes request (some "bearer x") body []
    ≡ (some (record { answered = uwf_ok (new_job body); meta = request }), kept)
unfolding create_ingestion auth_ctx verify_token authorize fake_create_job insert
token_accepted = refl

-- Files of an unknown job are not found.
job_not_found :
    append_files lower fakes request
      (some "bearer x")
      "job_2"
      (record { upload_tokens = []; uris = "u" ∷ [] })
      kept
    ≡ (some (record { answered = uwf_err (to_payload not_found); meta = request }), kept)
unfolding append_files auth_ctx verify_token authorize fake_append_files to_payload lookup
job_not_found = refl
