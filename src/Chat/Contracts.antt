-- ===== src/Chat/Contracts.antt =====
-- components/chatservice/contracts.py: the models, requests, responses, ports and errors.
-- A `datetime` is a number. A `cursor` and the flag `stream` are read by nothing and left out.
use lbpr.Prelude.{ℕ, String, Bool, Option, List}
use lbpr.Dict.{Dict}
use lbpr.Value.{Value}

pub data ChatStatus : Type 0 where
  active archived : ChatStatus

pub data Role : Type 0 where
  user assistant tool : Role

-- `score` is a float, carried from the retrieval adapter and never computed with.
pub record Citation : Type 0 where
  pub source_id : String
  pub title : Option String
  pub uri : Option String

pub record Message : Type 0 where
  pub id : String
  pub chat_id : String
  pub role : Role
  pub content : String
  pub created_at : ℕ
  pub metadata : Dict Value
  pub citations : List Citation

pub record Chat : Type 0 where
  pub id : String
  pub tenant_id : String
  pub title : String
  pub status : ChatStatus
  pub created_at : ℕ
  pub updated_at : ℕ

pub record CreateChatRequest : Type 0 where
  pub tenant_id : String
  pub title : Option String

pub record ListChatsRequest : Type 0 where
  pub tenant_id : String
  pub limit : ℕ

pub record GetChatRequest : Type 0 where
  pub tenant_id : String
  pub chat_id : String

pub data Order : Type 0 where
  asc desc : Order

pub record ListMessagesRequest : Type 0 where
  pub tenant_id : String
  pub chat_id : String
  pub limit : ℕ
  pub order : Order

pub record PostUserMessageRequest : Type 0 where
  pub tenant_id : String
  pub chat_id : String
  pub content : String
  pub retrieval : Bool
  pub metadata : Dict Value

pub record GetChatResponse : Type 0 where
  pub chat : Chat
  pub last_messages : List Message

pub record PostUserMessageResponse : Type 0 where
  pub user_message : Message
  pub assistant_message : Message

-- The ports, as one call sees them: the answer, or `none` where the call raises.
pub record LlmAdapter : Type 0 where
  pub provider : String
  pub generate : String → List Message → Option String

pub record RetrievalAdapter : Type 0 where
  pub retrieve : String → String → ℕ → Option (List String × List Citation)

-- `key_error` is Python's, on a subscript of a missing key.
pub data ChatError : Type 0 where
  not_found forbidden invalid_input upstream_error key_error : ChatError
