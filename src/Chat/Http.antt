-- ===== src/Chat/Http.antt =====
-- components/chatservice/http.py: the model for tests, the bodies and the routes. A response is the
-- envelope of a success, or the `HTTPException` with the status and the code of a `ChatError`. An
-- exception that is no `ChatError` leaves the route and is answered by the framework with 500.
-- FastAPI checks `limit`, `last_n` and `order` before a route is called.
pub mod Handled
use Prim.Native.String.{◌++◌ as join_text}
use lbpr.Prelude.{
  ℕ, ◌≤◌, String, Bool, true, false, Option, none, some, List, [], ◌∷◌, reverse, if◌then◌else◌,
}
use lbpr.Dict.{Dict}
use lbpr.Value.{Value}
use lbpr.Chat.Contracts.{
  Chat, Role, Message, ChatError, not_found, forbidden, invalid_input, upstream_error, key_error,
  GetChatResponse, Order, PostUserMessageResponse, LlmAdapter,
}
use lbpr.Chat.Action.{State, Action, Result, ok, err}
use lbpr.Chat.Service.{create_chat, list_chats, get_chat, list_messages}
use lbpr.Chat.Posting.{Fresh, post_user_message}

pub data Response (A : Type 0) : Type 0 where
  success : A → Response A
  http_error : ℕ → String → Response A
  unhandled : Response A

-- the class attributes `http` and `code`
unfoldable pub status_of : ChatError → ℕ
status_of not_found = 404
status_of forbidden = 403
status_of invalid_input = 400
status_of upstream_error = 502
status_of key_error = 500

unfoldable pub code_of : ChatError → String
code_of not_found = "not_found"
code_of forbidden = "forbidden"
code_of invalid_input = "invalid_input"
code_of upstream_error = "upstream_error"
code_of key_error = "KeyError"

unfoldable pub envelope : {A : Type 0} → Result A → Response A
unfolding status_of code_of
envelope (ok a) = success a
envelope (err key_error) = unhandled
envelope (err e) = http_error (status_of e) (code_of e)

abbrev handle : {A : Type 0} → Action A → State → Response A × State
handle m s = let (r, s') = m s in (envelope r, s')

abbrev is_user : Role → Bool
is_user Role.user = true
is_user _ = false

-- `next((m for m in messages if m.role.value == "user"), None)`
unfoldable pub first_user : List Message → Option Message
first_user [] = none
first_user (m ∷ ms) = if is_user m.role then some m else first_user ms

abbrev spoken : Option Message → String
spoken none = "Hello."
spoken (some m) = m.content

unfoldable pub fake_llm : LlmAdapter
unfolding first_user
fake_llm = record {
  provider = "fake-llm";
  generate = λ tenant_id messages.
      some (join_text "(assistant) You said: " (spoken (first_user (reverse messages))));
}

pub record PostMessageBody : Type 0 where
  pub content : String
  pub retrieval : Bool
  pub metadata : Dict Value

unfoldable pub post_chats : String → ℕ → Option String → String → State → Response Chat × State
unfolding envelope
post_chats chat_id now title tenant_id =
    handle (create_chat chat_id now (record { tenant_id = tenant_id; title = title }))

unfoldable pub get_chats : String → ℕ → State → Response (List Chat) × State
unfolding envelope
get_chats tenant_id limit = handle (list_chats (record { tenant_id = tenant_id; limit = limit }))

unfoldable pub get_chats_id : String → String → ℕ → State → Response GetChatResponse × State
unfolding envelope
get_chats_id chat_id tenant_id last_n =
    handle (get_chat (record { tenant_id = tenant_id; chat_id = chat_id }) last_n)

unfoldable pub get_messages : String → String → ℕ → Order → State → Response (List Message) × State
unfolding envelope
get_messages chat_id tenant_id limit order = handle (
    list_messages
      (record { tenant_id = tenant_id; chat_id = chat_id; limit = limit; order = order }))

unfoldable pub post_messages :
    Fresh
    → String
    → PostMessageBody
    → String
    → LlmAdapter
    → State
    → Response PostUserMessageResponse × State
unfolding envelope
post_messages f chat_id body tenant_id llm = handle (
    post_user_message f
      (record {
        tenant_id = tenant_id;
        chat_id = chat_id;
        content = body.content;
        retrieval = body.retrieval;
        metadata = body.metadata;
      })
      llm none)
