-- ===== src/Chat/Posting.antt =====
-- `post_user_message` of components/chatservice/service.py, step by step. What it appended before a
-- raise stays in the history.
use Prim.Native.String.{◌++◌ as join_text}
use lbpr.Prelude.{ℕ, String, Option, none, some, List, [], ◌∷◌, ◌++◌, if◌then◌else◌}
use lbpr.Dict
use lbpr.Dict.{Dict}
use lbpr.Value.{Value}
use lbpr.Chat.Contracts.{
  Chat, Role, Citation, Message, PostUserMessageRequest, PostUserMessageResponse, LlmAdapter,
  RetrievalAdapter, invalid_input, upstream_error, key_error,
}
use lbpr.Chat.Action.{Action, pure, or_raise, gets, modify, raise_if, ◌>>=◌, ◌>>◌}
use lbpr.Chat.Service.{require_chat, is_blank}

-- the ids and times that one call draws
pub record Fresh : Type 0 where
  pub user_id : String
  pub context_id : String
  pub assistant_id : String
  pub user_at : ℕ
  pub context_at : ℕ
  pub assistant_at : ℕ
  pub touched_at : ℕ

abbrev pub user_message : Fresh → Chat → PostUserMessageRequest → Message
user_message f chat req = record {
  id = f.user_id;
  chat_id = chat.id;
  role = Role.user;
  content = req.content;
  created_at = f.user_at;
  metadata = req.metadata;
  citations = [];
}

-- `"\n\n".join(snippets)`
unfoldable pub join_paragraphs : List String → String
join_paragraphs [] = ""
join_paragraphs (x ∷ []) = x
join_paragraphs (x ∷ y ∷ rest) = join_text x (join_text "\n\n" (join_paragraphs (y ∷ rest)))

abbrev pub context_message : Fresh → Chat → List String → List Citation → Message
context_message f chat snippets citations = record {
  id = f.context_id;
  chat_id = chat.id;
  role = Role.tool;
  content = join_paragraphs snippets;
  created_at = f.context_at;
  metadata = ("kind", Value.text "retrieval_context") ∷ [];
  citations = citations;
}

abbrev pub assistant_message : Fresh → Chat → LlmAdapter → String → List Citation → Message
assistant_message f chat llm content citations = record {
  id = f.assistant_id;
  chat_id = chat.id;
  role = Role.assistant;
  content = content;
  created_at = f.assistant_at;
  metadata = ("provider", Value.text llm.provider) ∷ [];
  citations = citations;
}

-- `self._messages_by_chat[chat_id]`
unfoldable pub history : String → Action (List Message)
history chat_id = do or_raise key_error (← gets (λ s. Dict.lookup chat_id s.messages_by_chat))

-- `self._messages_by_chat[chat_id].append(message)`
unfoldable pub append_message : String → Message → Action (Unit {0})
unfolding history
append_message chat_id message = do
  msgs ← history chat_id
  modify λ s. record s {
    messages_by_chat = Dict.insert chat_id (msgs ++ message ∷ []) s.messages_by_chat;
  }

-- what the retrieval of a request returns: no snippets unless there is an adapter and a wish for it
unfoldable pub retrieved :
    Option RetrievalAdapter → PostUserMessageRequest → Option (List String × List Citation)
retrieved none req = some ([], [])
retrieved (some adapter) req =
    if req.retrieval then adapter.retrieve req.tenant_id req.content 5 else some ([], [])

-- the context message, if there are snippets, and the messages for the model
unfoldable pub add_context :
    Fresh → Chat → List String → List Citation → List Message → Action (List Message)
unfolding append_message
add_context f chat [] citations messages = pure messages
add_context f chat (x ∷ snippets) citations messages = do
  append_message chat.id (context_message f chat (x ∷ snippets) citations)
  pure (messages ++ context_message f chat (x ∷ snippets) citations ∷ [])

-- from the answer of the model on
unfoldable pub finish :
    Fresh
    → Chat
    → PostUserMessageRequest
    → LlmAdapter
    → List Citation
    → String
    → Action PostUserMessageResponse
unfolding append_message
finish f chat req llm citations content = do
  append_message chat.id (assistant_message f chat llm content citations)
  modify λ s. record s {
    chats = Dict.insert chat.id (record chat { updated_at = f.touched_at }) s.chats;
  }
  pure (record {
    user_message = user_message f chat req;
    assistant_message = assistant_message f chat llm content citations;
  })

-- the call of the model, and what follows it
unfoldable pub reply :
    Fresh
    → PostUserMessageRequest
    → LlmAdapter
    → Chat
    → List Citation
    → List Message
    → Action PostUserMessageResponse
unfolding finish
reply f req llm chat citations for_llm = do
  content ← or_raise upstream_error (llm.generate req.tenant_id for_llm)
  finish f chat req llm citations content

-- from the messages for the model on
unfoldable pub answer :
    Fresh
    → PostUserMessageRequest
    → LlmAdapter
    → Chat
    → List String
    → List Citation
    → Action PostUserMessageResponse
unfolding history add_context
answer f req llm chat snippets citations = do
  messages ← history chat.id
  for_llm ← add_context f chat snippets citations messages
  reply f req llm chat citations for_llm

-- once the chat is found and the content is not blank
unfoldable pub post_in :
    Fresh
    → PostUserMessageRequest
    → LlmAdapter
    → Option RetrievalAdapter
    → Chat
    → Action PostUserMessageResponse
unfolding append_message answer
post_in f req llm retrieval chat = do
  append_message chat.id (user_message f chat req)
  (snippets, citations) ← or_raise upstream_error (retrieved retrieval req)
  answer f req llm chat snippets citations

unfoldable pub post_user_message :
    Fresh
    → PostUserMessageRequest
    → LlmAdapter
    → Option RetrievalAdapter
    → Action PostUserMessageResponse
unfolding require_chat post_in
post_user_message f req llm retrieval = do
  chat ← require_chat req.tenant_id req.chat_id
  raise_if (is_blank req.content) invalid_input
  post_in f req llm retrieval chat
