-- ===== src/Gateway/Gate.antt =====
-- No route serves a caller who may not be served.
use lbpr.Prelude.{◌≡◌, refl, String, Option, List, [], ◌∷◌}
use lbpr.Gateway.Contracts.{
  CreateIngestionRequest, AppendFilesRequest, FinalizeIngestionRequest, SearchRequest,
  ChatCompletionRequest, SetTagsRequest, GatewayError, err,
}
use lbpr.Gateway.Bearer.{
  IsUnserved, no_header, no_bearer, bad_token, no_scope, auth_ctx-no_bearer, auth_ctx-header_of,
}
use lbpr.Gateway.Ports.{Ports}
use lbpr.Gateway.Routes.{
  RequestState, respond_err, auth_ctx, enter, create_ingestion, append_files, finalize,
  get_ingestion, search, chat_completions, get_metadata, set_tags,
}

-- a request to one of the routes
pub data Call : Type 0 where
  to_create : CreateIngestionRequest → Call
  to_append : String → AppendFilesRequest → Call
  to_finalize : String → FinalizeIngestionRequest → Call
  to_get : String → Call
  to_search : SearchRequest → Call
  to_chat : ChatCompletionRequest → Call
  to_read : String → Call
  to_tag : String → SetTagsRequest → Call

-- what the route requires
abbrev pub scopes_of : Call → List String
scopes_of (to_create body) = "documents:ingest" ∷ []
scopes_of (to_append job_id body) = "documents:ingest" ∷ []
scopes_of (to_finalize job_id body) = "documents:ingest" ∷ []
scopes_of (to_get job_id) = "documents:ingest" ∷ []
scopes_of (to_search body) = "search:query" ∷ []
scopes_of (to_chat body) = "chat:send" ∷ []
scopes_of (to_read file_id) = "documents:ingest" ∷ []
scopes_of (to_tag file_id body) = "documents:ingest" ∷ []

module _ {W : Type 0} (lower : String → String) (ports : Ports W) (request : RequestState)
    (authorization : Option String) (w : W) (e : GatewayError) where
  enter-refused :
      (scopes : List String)
      → IsUnserved lower ports scopes authorization e
      → enter lower ports authorization scopes w ≡ (err e, w)
  unfolding enter
  enter-refused scopes h = stopped h
    where
      stopped :
          {o : Option String} {e' : GatewayError}
          → IsUnserved lower ports scopes o e'
          → enter lower ports o scopes w ≡ (err e', w)
      stopped no_header = unfold auth_ctx in refl
      stopped (no_bearer header other) = rw (auth_ctx-no_bearer lower ports header other) refl
      stopped (bad_token scheme token one bearer refused) =
          rw (auth_ctx-header_of lower ports scheme token one bearer, refused) refl
      stopped (no_scope scheme token ctx one bearer known forbidden) =
          rw (auth_ctx-header_of lower ports scheme token one bearer, known, forbidden) refl

  -- the route answers with the error, and the services keep their state
  abbrev pub IsTurnedAway : Call → Type 0
  IsTurnedAway (to_create body) =
      create_ingestion lower ports request authorization body w ≡ (respond_err request e, w)
  IsTurnedAway (to_append job_id body) =
      append_files lower ports request authorization job_id body w ≡ (respond_err request e, w)
  IsTurnedAway (to_finalize job_id body) =
      finalize lower ports request authorization job_id body w ≡ (respond_err request e, w)
  IsTurnedAway (to_get job_id) =
      get_ingestion lower ports request authorization job_id w ≡ (respond_err request e, w)
  IsTurnedAway (to_search body) =
      search lower ports request authorization body w ≡ (respond_err request e, w)
  IsTurnedAway (to_chat body) =
      chat_completions lower ports request authorization body w ≡ (respond_err request e, w)
  IsTurnedAway (to_read file_id) =
      get_metadata lower ports request authorization file_id w ≡ (respond_err request e, w)
  IsTurnedAway (to_tag file_id body) =
      set_tags lower ports request authorization file_id body w ≡ (respond_err request e, w)

  -- A caller with no header `Authorization`, with a header that does not start with the word "bearer"
  -- and a space, with a token that the port refuses, or with a token that lacks a scope that the
  -- route requires, is answered with an authentication error in the first two cases and with the
  -- error of the port in the others, by every route that asks for a token; the services and the
  -- limiter keep their state.
  pub IsUnserved-IsTurnedAway :
      (call : Call) → IsUnserved lower ports (scopes_of call) authorization e → IsTurnedAway call
  unfolding create_ingestion append_files finalize get_ingestion search chat_completions
      get_metadata set_tags
  IsUnserved-IsTurnedAway (to_create body) h =
      let stop = enter-refused (scopes_of (to_create body)) h in rw stop refl
  IsUnserved-IsTurnedAway (to_append job_id body) h =
      let stop = enter-refused (scopes_of (to_append job_id body)) h in rw stop refl
  IsUnserved-IsTurnedAway (to_finalize job_id body) h =
      let stop = enter-refused (scopes_of (to_finalize job_id body)) h in rw stop refl
  IsUnserved-IsTurnedAway (to_get job_id) h =
      let stop = enter-refused (scopes_of (to_get job_id)) h in rw stop refl
  IsUnserved-IsTurnedAway (to_search body) h =
      let stop = enter-refused (scopes_of (to_search body)) h in rw stop refl
  IsUnserved-IsTurnedAway (to_chat body) h =
      let stop = enter-refused (scopes_of (to_chat body)) h in rw stop refl
  IsUnserved-IsTurnedAway (to_read file_id) h =
      let stop = enter-refused (scopes_of (to_read file_id)) h in rw stop refl
  IsUnserved-IsTurnedAway (to_tag file_id body) h =
      let stop = enter-refused (scopes_of (to_tag file_id body)) h in rw stop refl
