-- ===== src/Chat/Service.antt =====
-- components/chatservice/service.py: `InMemoryChatService`. The ids of `uuid4` and the times of
-- `_now` that a call uses are an argument, `Fresh`. Logging is left out. A limit and `last_n` are not
-- negative, as the routes of http.py check.
use Prim.Native.Char.{code}
use lbpr.Prelude.{
  ℕ, ◌-◌, String, Bool, true, false, ◌&&◌, Option, none, some, List, [], ◌∷◌, reverse, length, take,
  drop, ◌==◌, str_eq, if◌then◌else◌,
}
use lbpr.Dict
use lbpr.Dict.{Dict}
use lbpr.Text.{is_space}
use lbpr.Chat.Contracts.{
  Chat, ChatStatus, Message, CreateChatRequest, ListChatsRequest, GetChatRequest, Order, asc, desc,
  ListMessagesRequest, GetChatResponse, not_found, forbidden, invalid_input, key_error,
}
use lbpr.Chat.Action.{State, Action, pure, or_raise, gets, modify, raise_if, ◌>>=◌, ◌>>◌}

abbrev pub init : State
init = record { chats = []; messages_by_chat = []; tenant_chat_ids = [] }

abbrev pub or_empty {ℓ} : {A : Type ℓ} → Option (List A) → List A
or_empty none = []
or_empty (some l) = l

-- `not text.strip()`, true of the empty text too
unfoldable pub is_blank : String → Bool
unfolding is_space
is_blank String.[] = true
is_blank (String.◌∷◌ c s) = is_space (code c) && is_blank s

unfoldable pub check_tenant : String → Chat → Action Chat
check_tenant tenant_id chat = do
  raise_if (if str_eq chat.tenant_id tenant_id then false else true) forbidden
  pure chat

unfoldable pub require_chat : String → String → Action Chat
unfolding check_tenant
require_chat tenant_id chat_id = do
  chat ← or_raise not_found (← gets (λ s. Dict.lookup chat_id s.chats))
  check_tenant tenant_id chat

-- `req.title or "New Chat"`
abbrev pub title_of : Option String → String
title_of none = "New Chat"
title_of (some t) = if str_eq t "" then "New Chat" else t

unfoldable pub new_chat : String → ℕ → CreateChatRequest → Chat
new_chat chat_id now req = record {
  id = chat_id;
  tenant_id = req.tenant_id;
  title = title_of req.title;
  status = ChatStatus.active;
  created_at = now;
  updated_at = now;
}

unfoldable pub store_chat : Chat → State → State
store_chat chat s = record {
  chats = Dict.insert chat.id chat s.chats;
  messages_by_chat = Dict.insert chat.id [] s.messages_by_chat;
  tenant_chat_ids =
      Dict.insert chat.tenant_id (chat.id ∷ or_empty (Dict.lookup chat.tenant_id s.tenant_chat_ids))
        s.tenant_chat_ids;
}

unfoldable pub create_chat : String → ℕ → CreateChatRequest → Action Chat
unfolding new_chat store_chat
create_chat chat_id now req = do
  raise_if (str_eq req.tenant_id "") invalid_input
  modify (store_chat (new_chat chat_id now req))
  pure (new_chat chat_id now req)

-- one round of the comprehension
unfoldable pub cons_found : Option Chat → Option (List Chat) → Option (List Chat)
cons_found none rest = none
cons_found (some c) none = none
cons_found (some c) (some cs) = some (c ∷ cs)

-- `[self._chats[cid] for cid in ids]`, which raises `KeyError` where an id is missing
unfoldable pub subscripts : List String → Dict Chat → Option (List Chat)
unfolding cons_found
subscripts [] d = some []
subscripts (cid ∷ ids) d = cons_found (Dict.lookup cid d) (subscripts ids d)

unfoldable pub list_chats : ListChatsRequest → Action (List Chat)
unfolding subscripts
list_chats req = do
  ids ← gets (λ s. or_empty (Dict.lookup req.tenant_id s.tenant_chat_ids))
  items ← or_raise key_error (← gets (λ s. subscripts ids s.chats))
  pure (take req.limit items)

-- `msgs[-last_n:] if last_n > 0 else []`
abbrev pub last_of : ℕ → List Message → List Message
last_of n msgs = if n == 0 then [] else drop (length msgs - n) msgs

unfoldable pub get_chat : GetChatRequest → ℕ → Action GetChatResponse
unfolding require_chat
get_chat req last_n = do
  chat ← require_chat req.tenant_id req.chat_id
  msgs ← gets (λ s. or_empty (Dict.lookup chat.id s.messages_by_chat))
  pure (record { chat = chat; last_messages = last_of last_n msgs })

abbrev pub ordered : Order → List Message → List Message
ordered asc msgs = msgs
ordered desc msgs = reverse msgs

unfoldable pub list_messages : ListMessagesRequest → Action (List Message)
unfolding require_chat
list_messages req = do
  chat ← require_chat req.tenant_id req.chat_id
  msgs ← gets (λ s. or_empty (Dict.lookup chat.id s.messages_by_chat))
  pure (take req.limit (ordered req.order msgs))
