-- ===== src/Gateway/Contracts.antt =====
-- components/apigateway/contracts.py and errors.py. The filters of a search and the options and the
-- usage of a chat, which only the services behind the ports read or write, are left out; a hit is its
-- id, and no error here has details.
use lbpr.Prelude.{ℕ, String, Bool, Option, List}

pub record AuthContext : Type 0 where
  pub tenant_id : String
  pub user_id : String
  pub scopes : List String

pub record CreateIngestionRequest : Type 0 where
  pub source_hint : Option String
  pub client_job_id : Option String
  pub tags : List String

pub record AppendFilesRequest : Type 0 where
  pub upload_tokens : List String
  pub uris : List String

pub record FinalizeIngestionRequest : Type 0 where
  pub dedupe : Bool
  pub reindex : Bool

pub record SearchRequest : Type 0 where
  pub query : String
  pub top_k : ℕ

pub record ChatMessage : Type 0 where
  pub role : String
  pub content : String

pub record ChatCompletionRequest : Type 0 where
  pub messages : List ChatMessage

pub record SetTagsRequest : Type 0 where
  pub tags : List String

pub record IngestionJob : Type 0 where
  pub job_id : String
  pub status : String
  pub files_total : ℕ
  pub files_ingested : ℕ
  pub created_at : String
  pub updated_at : String
  pub tags : List String

pub record SearchResult : Type 0 where
  pub query : String
  pub hits : List String
  pub top_k : ℕ

pub record ChatChoice : Type 0 where
  pub index : ℕ
  pub message : ChatMessage
  pub finish_reason : Option String

pub record ChatResult : Type 0 where
  pub choices : List ChatChoice

pub record FileMetadata : Type 0 where
  pub file_id : String
  pub size_bytes : ℕ
  pub mime_type : String
  pub tags : List String
  pub created_at : String
  pub updated_at : String

-- the subclasses of `ApiGatewayError`, itself as `internal`, and exceptions that are none of it
pub data GatewayError : Type 0 where
  auth_error : GatewayError
  forbidden : GatewayError
  rate_limited : GatewayError
  validation_error : GatewayError
  not_found : GatewayError
  upstream_error : GatewayError
  internal : GatewayError
  other_exception : GatewayError

pub record ErrorPayload : Type 0 where
  pub error_type : String
  pub code : String
  pub message : String

abbrev pub payload : String → String → String → ErrorPayload
payload error_type code message = record { error_type = error_type; code = code; message = message }

-- `to_payload`
unfoldable pub to_payload : GatewayError → ErrorPayload
to_payload auth_error = payload "AUTH_ERROR" "auth_failed" "Authentication failed"
to_payload forbidden = payload "AUTH_ERROR" "forbidden" "Not enough privileges"
to_payload rate_limited = payload "RATE_LIMIT" "rate_limited" "Rate limit exceeded"
to_payload validation_error = payload "VALIDATION" "validation_error" "Validation error"
to_payload not_found = payload "NOT_FOUND" "not_found" "Resource not found"
to_payload upstream_error = payload "UPSTREAM" "upstream_error" "Upstream dependency failed"
to_payload internal = payload "INTERNAL" "internal_error" "Internal server error"
to_payload other_exception = payload "INTERNAL" "internal_error" "Internal server error"

pub data Result (A : Type 0) : Type 0 where
  ok : A → Result A
  err : GatewayError → Result A

-- code that changes a state and may raise
abbrev pub Action : Type 0 → Type 0 → Type 0
Action W A = W → Result A × W

abbrev pub pure : {W A : Type 0} → A → Action W A
pure a w = (ok a, w)

abbrev pub after : {W A B : Type 0} → Result A × W → (A → Action W B) → Result B × W
after (ok a, w) f = f a w
after (err e, w) f = (err e, w)

infixl 5 ◌>>=◌ ◌>>◌
abbrev pub ◌>>=◌ : {W A B : Type 0} → Action W A → (A → Action W B) → Action W B
◌>>=◌ m f w = after (m w) f

abbrev pub ◌>>◌ : {W B : Type 0} → Action W (Unit {0}) → Action W B → Action W B
m >> k = m >>= λ u. k

-- a call that changes nothing
abbrev pub lift : {W A : Type 0} → Result A → Action W A
lift r w = (r, w)
