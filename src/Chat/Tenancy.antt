-- ===== src/Chat/Tenancy.antt =====
-- Tenants are kept apart: no request reads or changes the chat of another tenant.
use lbpr.Prelude.{ℕ, String, ◌≡◌, ◌≢◌, refl, false, Option, none, some, arith, eq_iff, str_eq}
use lbpr.Dict
use lbpr.Chat.Contracts.{
  Chat, GetChatRequest, ListMessagesRequest, PostUserMessageRequest, LlmAdapter, RetrievalAdapter,
  not_found, forbidden, ChatError,
}
use lbpr.Chat.Action.{State, err}
use lbpr.Chat.Service.{require_chat, get_chat, list_messages}
use lbpr.Chat.Posting.{Fresh, post_user_message}

-- The error of a request for a chat that its tenant may not see.
abbrev pub refusal : Option Chat → ChatError
refusal none = not_found
refusal (some _) = forbidden

-- The tenant has no chat of that id: there is none, or it is another tenant's.
abbrev pub Hidden : String → Option Chat → Type 0
Hidden tenant_id none = Unit
Hidden tenant_id (some chat) = chat.tenant_id ≢ tenant_id

require_chat-Hidden :
    (tenant_id chat_id : String) (s : State)
    → Hidden tenant_id (Dict.lookup chat_id s.chats)
    → require_chat tenant_id chat_id s ≡ (err (refusal (Dict.lookup chat_id s.chats)), s)
unfolding require_chat
require_chat-Hidden tenant_id chat_id s h = by_entry (Dict.lookup chat_id s.chats) refl h
  where
    by_entry :
        (o : Option Chat)
        → Dict.lookup chat_id s.chats ≡ o
        → Hidden tenant_id o
        → require_chat tenant_id chat_id s ≡ (err (refusal o), s)
    by_entry none found hidden = rw found refl
    by_entry (some chat) found hidden =
        let other : str_eq chat.tenant_id tenant_id ≡ false =
          ground (arith, eq_iff chat.tenant_id tenant_id) in
        rw (found, other) refl

-- A request for a chat that does not exist is answered `not_found`, one for a chat of another tenant
-- `forbidden`, by each of the three methods that take a chat id; and the state is as it was.
pub Hidden-refused :
    (s : State) (get : GetChatRequest) (n : ℕ) (list : ListMessagesRequest)
    (post : PostUserMessageRequest) (f : Fresh) (llm : LlmAdapter) (r : Option RetrievalAdapter)
    → Hidden get.tenant_id (Dict.lookup get.chat_id s.chats)
    → Hidden list.tenant_id (Dict.lookup list.chat_id s.chats)
    → Hidden post.tenant_id (Dict.lookup post.chat_id s.chats)
    → (get_chat get n s ≡ (err (refusal (Dict.lookup get.chat_id s.chats)), s))
      × (list_messages list s ≡ (err (refusal (Dict.lookup list.chat_id s.chats)), s))
      × (post_user_message f post llm r s ≡ (err (refusal (Dict.lookup post.chat_id s.chats)), s))
unfolding get_chat list_messages post_user_message
Hidden-refused s get n list post f llm r no_get no_list no_post = (
  rw (require_chat-Hidden get.tenant_id get.chat_id s no_get) refl,
  rw (require_chat-Hidden list.tenant_id list.chat_id s no_list) refl,
  rw (require_chat-Hidden post.tenant_id post.chat_id s no_post) refl,
)
