-- ===== src/Gateway/Ports.antt =====
-- components/apigateway/ports.py: what the gateway asks of the services, whose state is `W`.
use lbpr.Prelude.{String, List}
use lbpr.Gateway.Contracts.{
  AuthContext, CreateIngestionRequest, AppendFilesRequest, FinalizeIngestionRequest, SearchRequest,
  ChatCompletionRequest, IngestionJob, SearchResult, ChatResult, FileMetadata, Result, Action,
}

pub record AuthPort : Type 0 where
  pub verify_token : String → Result AuthContext
  pub authorize : AuthContext → List String → Result (Unit {0})

pub record RateLimiterPort (W : Type 0) : Type 0 where
  pub check : String → Action W (Unit {0})
  pub consume : String → Action W (Unit {0})

pub record IngestionPort (W : Type 0) : Type 0 where
  pub create_job : AuthContext → CreateIngestionRequest → Action W IngestionJob
  pub append_files : AuthContext → String → AppendFilesRequest → Action W IngestionJob
  pub finalize_job : AuthContext → String → FinalizeIngestionRequest → Action W IngestionJob
  pub get_job : AuthContext → String → Action W IngestionJob

pub record SearchPort (W : Type 0) : Type 0 where
  pub search : AuthContext → SearchRequest → Action W SearchResult

pub record ChatPort (W : Type 0) : Type 0 where
  pub completion : AuthContext → ChatCompletionRequest → Action W ChatResult

pub record MetadataPort (W : Type 0) : Type 0 where
  pub get_file_metadata : AuthContext → String → Action W FileMetadata
  pub set_tags : AuthContext → String → List String → Action W FileMetadata

pub record Ports (W : Type 0) : Type 0 where
  pub auth : AuthPort
  pub rl : RateLimiterPort W
  pub ing : IngestionPort W
  pub search : SearchPort W
  pub chat : ChatPort W
  pub meta : MetadataPort W
