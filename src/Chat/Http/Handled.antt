-- ===== src/Chat/Http/Handled.antt =====
-- No route of http.py lets a `KeyError` of the service through.
use lbpr.Prelude.{
  ℕ, String, ◌≡◌, ◌≢◌, ap, ◌∙◌, Option, none, some, List, inl, inr, Option-cases, Bool-cases,
  String-cases, str_eq,
}
use lbpr.Dict
use lbpr.Chat.Contracts.{
  Chat, CreateChatRequest, ListChatsRequest, Order, PostUserMessageRequest, LlmAdapter,
  RetrievalAdapter, key_error, Citation, Message,
}
use lbpr.Chat.Action.{State, Result, ok, err}
use lbpr.Chat.Service.{is_blank, create_chat, list_chats, get_chat, list_messages}
use lbpr.Chat.Posting.{Fresh, retrieved, post_user_message}
use lbpr.Chat.Invariant.{IsValid}
use lbpr.Chat.Listing.{list_chats_exact}
use lbpr.Chat.Transcript.{MayPost}
use lbpr.Chat.Answers.{post_user_message-result, response_to, result_after}
use lbpr.Chat.Http.{
  unhandled, envelope, PostMessageBody, post_chats, get_chats, get_chats_id, get_messages,
  post_messages,
}

-- anything but a `KeyError`
abbrev Caught : {A : Type 0} → Result A → Type 0
Caught (ok _) = Unit
Caught (err key_error) = ⊥
Caught (err _) = Unit

envelope-Caught : {A : Type 0} (r : Result A) → Caught r → envelope r ≢ unhandled
unfolding envelope
envelope-Caught (ok a) h e = cc
envelope-Caught (err key_error) h e = h
envelope-Caught (err _) h e = cc

create_chat-Caught :
    (chat_id : String) (now : ℕ) (req : CreateChatRequest) (s : State)
    → Caught (create_chat chat_id now req s).0
unfolding create_chat
create_chat-Caught chat_id now req s = elim (Bool-cases (str_eq req.tenant_id "")) [
  | inl e ↦ rw e tt
  | inr e ↦ rw e tt
]

list_chats-Caught : (req : ListChatsRequest) (s : State) → IsValid s → Caught (list_chats req s).0
list_chats-Caught req s h = let (items, e, _, _) = list_chats_exact req s h in rw e tt

module _ (tenant_id chat_id : String) (s : State) where
  get_chat-Caught :
      (n : ℕ) → Caught (get_chat (record { tenant_id = tenant_id; chat_id = chat_id }) n s).0
  unfolding get_chat
  get_chat-Caught n = elim (Option-cases (Dict.lookup chat_id s.chats)) [
    | inl e ↦ rw e tt
    | inr (chat, e) ↦ elim (Bool-cases (str_eq chat.tenant_id tenant_id)) [
      | inl mine ↦ rw (e, mine) tt
      | inr other ↦ rw (e, other) tt
    ]
  ]

  list_messages-Caught :
      (limit : ℕ) (order : Order)
      → Caught
          (list_messages
            (record { tenant_id = tenant_id; chat_id = chat_id; limit = limit; order = order })
            s).0
  unfolding list_messages
  list_messages-Caught limit order = elim (Option-cases (Dict.lookup chat_id s.chats)) [
    | inl e ↦ rw e tt
    | inr (chat, e) ↦ elim (Bool-cases (str_eq chat.tenant_id tenant_id)) [
      | inl mine ↦ rw (e, mine) tt
      | inr other ↦ rw (e, other) tt
    ]
  ]

module _ (f : Fresh) (req : PostUserMessageRequest) (llm : LlmAdapter) where
  response_to-Caught :
      (chat : Chat) (citations : List Citation) (o : Option String)
      → Caught (response_to f req llm chat citations o)
  response_to-Caught chat citations none = tt
  response_to-Caught chat citations (some content) = tt

  result_after-Caught :
      (chat : Chat) (old : List Message) (r : Option (List String × List Citation))
      → Caught (result_after f req llm chat old r)
  result_after-Caught chat old none = tt
  result_after-Caught chat old (some (snippets, citations)) = response_to-Caught chat citations _

  post_user_message-Caught :
      (r : Option RetrievalAdapter) (s : State)
      → IsValid s
      → Caught (post_user_message f req llm r s).0
  unfolding post_user_message
  post_user_message-Caught r s h = elim (Option-cases (Dict.lookup req.chat_id s.chats)) [
    | inl e ↦ rw e tt
    | inr (chat, e) ↦ elim (String-cases chat.tenant_id req.tenant_id) [
      | inl (test, mine) ↦ elim (Bool-cases (is_blank req.content)) [
        | inl blank ↦ rw (e, test, blank) tt
        | inr written ↦
            let own : chat.id ≡ req.chat_id = h.own_id req.chat_id chat e in
            let (old, found) = h.history req.chat_id chat e in
            let may : MayPost req chat s = record {
              found = e;
              own_id = own;
              own_tenant = mine;
              not_blank = written;
            } in
            rw
              (post_user_message-result f req llm r chat s old may
                (ap (λ (j : String). Dict.lookup j s.messages_by_chat) own ∙ found))
              (result_after-Caught chat old (retrieved r req))
      ]
      | inr (test, _) ↦ rw (e, test) tt
    ]
  ]

-- In a state that the service can reach, each of the five routes answers with a success or with the
-- status of a `ChatError`, never with an unhandled `KeyError`.
pub routes_handled :
    (s : State) (f : Fresh) (body : PostMessageBody) (llm : LlmAdapter) (title : Option String)
    (new_id chat_id tenant_id : String) (now n : ℕ) (order : Order)
    → IsValid s
    → ((post_chats new_id now title tenant_id s).0 ≢ unhandled)
      × ((get_chats tenant_id n s).0 ≢ unhandled)
      × ((get_chats_id chat_id tenant_id n s).0 ≢ unhandled)
      × ((get_messages chat_id tenant_id n order s).0 ≢ unhandled)
      × ((post_messages f chat_id body tenant_id llm s).0 ≢ unhandled)
unfolding post_chats get_chats get_chats_id get_messages post_messages
routes_handled s f body llm title new_id chat_id tenant_id now n order h = (
  envelope-Caught _ (create_chat-Caught new_id now _ s),
  envelope-Caught _ (list_chats-Caught _ s h),
  envelope-Caught _ (get_chat-Caught tenant_id chat_id s n),
  envelope-Caught _ (list_messages-Caught tenant_id chat_id s n order),
  envelope-Caught _ (post_user_message-Caught f _ llm none s h),
)
