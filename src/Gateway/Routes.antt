-- ===== src/Gateway/Routes.antt =====
-- components/apigateway/routers/public.py: the helpers and the routes, over the ports. `lower` is
-- `str.lower`. A route answers, or raises what is no `ApiGatewayError`.
use Prim.Native.Char.{code}
use Prim.Native.String.{◌++◌ as join_text}
use lbpr.Prelude.{String, not, ◌||◌, Option, none, some, List, [], ◌∷◌, ◌==◌, if◌then◌else◌}
use lbpr.Text.{is_space}
use lbpr.Text.Find.{starts_with}
use lbpr.Text.Strip.{strip, no_text}
use lbpr.Gateway.Contracts.{
  AuthContext, CreateIngestionRequest, AppendFilesRequest, FinalizeIngestionRequest, SearchRequest,
  ChatCompletionRequest, SetTagsRequest, IngestionJob, SearchResult, ChatResult, FileMetadata,
  GatewayError, auth_error, forbidden, rate_limited, validation_error, not_found, upstream_error,
  internal, other_exception, ErrorPayload, to_payload, Result, ok, err, Action, pure, ◌>>=◌, ◌>>◌,
  lift,
}
use lbpr.Gateway.Ports.{Ports}

-- what the middleware leaves in `request.state`
pub record RequestState : Type 0 where
  pub trace_id : Option String
  pub request_id : Option String
  pub tenant_id : Option String

pub data Answered (A : Type 0) : Type 0 where
  uwf_ok : A → Answered A
  uwf_err : ErrorPayload → Answered A

pub record UwfResponse (A : Type 0) : Type 0 where
  pub answered : Answered A
  pub meta : RequestState

abbrev pub respond_err : {A : Type 0} → RequestState → GatewayError → Option (UwfResponse A)
respond_err request other_exception = none
respond_err request auth_error =
    some (record { answered = uwf_err (to_payload auth_error); meta = request })
respond_err request forbidden =
    some (record { answered = uwf_err (to_payload forbidden); meta = request })
respond_err request rate_limited =
    some (record { answered = uwf_err (to_payload rate_limited); meta = request })
respond_err request validation_error =
    some (record { answered = uwf_err (to_payload validation_error); meta = request })
respond_err request not_found =
    some (record { answered = uwf_err (to_payload not_found); meta = request })
respond_err request upstream_error =
    some (record { answered = uwf_err (to_payload upstream_error); meta = request })
respond_err request internal =
    some (record { answered = uwf_err (to_payload internal); meta = request })

-- `try: ... return _uwf_ok(request, a)` and `except ApiGatewayError as e: return _uwf_err(request, e)`
abbrev pub respond : {W A : Type 0} → RequestState → Result A × W → Option (UwfResponse A) × W
respond request (ok a, w) = (some (record { answered = uwf_ok a; meta = request }), w)
respond request (err e, w) = (respond_err request e, w)

-- `s.split(" ", 1)[1]`, none for an IndexError
unfoldable pub after_space : String → Option String
after_space String.[] = none
after_space (String.◌∷◌ c s) =
    let rest : Option String = after_space s in if code c == 32 then some s else rest

module _ {W : Type 0} (lower : String → String) (ports : Ports W) where
  abbrev pub verified : Option String → Result AuthContext
  verified none = err other_exception
  verified (some token) = ports.auth.verify_token (strip is_space token)

  unfoldable pub auth_ctx : Option String → Result AuthContext
  unfolding no_text starts_with after_space strip is_space
  auth_ctx none = err auth_error
  auth_ctx (some authorization) =
      if no_text authorization || not (starts_with "bearer " (lower authorization))
      then err auth_error
      else verified (after_space authorization)

  -- the first two lines of every route but the probes
  unfoldable pub enter : Option String → List String → Action W AuthContext
  unfolding auth_ctx
  enter authorization scopes = do
    ctx ← lift (auth_ctx authorization)
    lift (ports.auth.authorize ctx scopes)
    pure ctx

  module _ (request : RequestState) (authorization : Option String) where
    unfoldable pub create_ingestion :
        CreateIngestionRequest → W → Option (UwfResponse IngestionJob) × W
    unfolding enter
    create_ingestion body w = respond request (
        (do
          ctx ← enter authorization ("documents:ingest" ∷ [])
          ports.rl.check (join_text "ingest:" ctx.tenant_id)
          job ← ports.ing.create_job ctx body
          ports.rl.consume (join_text "ingest:" ctx.tenant_id)
          pure job)
          w)

    unfoldable pub append_files :
        String → AppendFilesRequest → W → Option (UwfResponse IngestionJob) × W
    unfolding enter
    append_files job_id body w = respond request (
        (do
          ctx ← enter authorization ("documents:ingest" ∷ [])
          ports.ing.append_files ctx job_id body)
          w)

    unfoldable pub finalize :
        String → FinalizeIngestionRequest → W → Option (UwfResponse IngestionJob) × W
    unfolding enter
    finalize job_id body w = respond request (
        (do
          ctx ← enter authorization ("documents:ingest" ∷ [])
          ports.ing.finalize_job ctx job_id body)
          w)

    unfoldable pub get_ingestion : String → W → Option (UwfResponse IngestionJob) × W
    unfolding enter
    get_ingestion job_id w =
        respond request
          ((do ctx ← enter authorization ("documents:ingest" ∷ []); ports.ing.get_job ctx job_id) w)

    unfoldable pub search : SearchRequest → W → Option (UwfResponse SearchResult) × W
    unfolding enter
    search body w = respond request (
        (do
          ctx ← enter authorization ("search:query" ∷ [])
          ports.rl.check (join_text "search:" ctx.tenant_id)
          res ← ports.search.search ctx body
          ports.rl.consume (join_text "search:" ctx.tenant_id)
          pure res)
          w)

    unfoldable pub chat_completions :
        ChatCompletionRequest → W → Option (UwfResponse ChatResult) × W
    unfolding enter
    chat_completions body w = respond request (
        (do
          ctx ← enter authorization ("chat:send" ∷ [])
          ports.rl.check (join_text "chat:" ctx.tenant_id)
          res ← ports.chat.completion ctx body
          ports.rl.consume (join_text "chat:" ctx.tenant_id)
          pure res)
          w)

    unfoldable pub get_metadata : String → W → Option (UwfResponse FileMetadata) × W
    unfolding enter
    get_metadata file_id w = respond request (
        (do
          ctx ← enter authorization ("documents:ingest" ∷ [])
          ports.meta.get_file_metadata ctx file_id)
          w)

    unfoldable pub set_tags : String → SetTagsRequest → W → Option (UwfResponse FileMetadata) × W
    unfolding enter
    set_tags file_id body w = respond request (
        (do
          ctx ← enter authorization ("documents:ingest" ∷ [])
          ports.meta.set_tags ctx file_id body.tags)
          w)
