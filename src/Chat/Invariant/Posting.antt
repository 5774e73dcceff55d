-- ===== src/Chat/Invariant/Posting.antt =====
-- `post_user_message` keeps the chat service's dictionaries in agreement, also where it raises.
use lbpr.Prelude.{
  String, ◌≡◌, refl, ap, sym, ◌∙◌, Option, some, List, [], ◌∷◌, ◌++◌, inl, inr, Option-cases,
  Bool-cases, String-cases, All-append, All-map, ℕ, str_eq,
}
use lbpr.Dict
use lbpr.Dict.{Dict, lookup-insert_cases, lookup-insert, lookup-insert_self, lookup-insert_ne}
use lbpr.Chat.Contracts.{
  Chat, Citation, Message, PostUserMessageRequest, LlmAdapter, RetrievalAdapter,
}
use lbpr.Chat.Action.{State, pure, bind_rule}
use lbpr.Chat.Service.{is_blank}
use lbpr.Chat.Posting.{
  Fresh, user_message, context_message, assistant_message, append_message, retrieved, add_context,
  finish, reply, answer, post_in, post_user_message,
}
use mathlib.Core.Path.{subst}
use lbpr.Chat.Invariant.{IsValid, Listed, Owned-insert, ids_of}

-- a valid state that holds this chat
abbrev InChat : Chat → State → Type 0
InChat chat s = IsValid s × (Dict.lookup chat.id s.chats ≡ some chat)

module _ (chat : Chat) where
  append_message-InChat :
      (m : Message) (s : State)
      → m.chat_id ≡ chat.id
      → InChat chat s
      → InChat chat (append_message chat.id m s).1
  unfolding append_message
  append_message-InChat m s own (h, stored) =
      elim (Option-cases (Dict.lookup chat.id s.messages_by_chat)) [
        | inl missing ↦ rw missing (h, stored)
        | inr (l, found) ↦ rw found (
          record {
            own_id = h.own_id;
            history = λ cid d e. elim (String-cases chat.id cid) [
              | inl (test, _) ↦ (l ++ m ∷ [], rw (lookup-insert, test) refl)
              | inr (_, other) ↦
                  let (old, was) = h.history cid d e in
                  (old, lookup-insert_ne chat.id cid _ s.messages_by_chat other ∙ was)
            ];
            indexed = h.indexed;
            complete = h.complete;
            placed = λ cid k e.
                elim (lookup-insert_cases chat.id cid (l ++ m ∷ []) k s.messages_by_chat e) [
                  | inl (here, same) ↦ rw (← same) (
                      All-append (λ x. x.chat_id ≡ cid) l (m ∷ [])
                        (h.placed cid l (
                          ap (λ (j : String). Dict.lookup j s.messages_by_chat) (sym here) ∙ found))
                        (own ∙ here, tt))
                  | inr (_, old) ↦ h.placed cid k old
                ];
          },
          stored,
        )
      ]

  -- the last write of a call: the chat with a new time
  touch-IsValid :
      (at : ℕ) (s : State)
      → InChat chat s
      → IsValid (record s { chats = Dict.insert chat.id (record chat { updated_at = at }) s.chats })
  touch-IsValid at s (h, stored) =
      let touched : Chat = record chat { updated_at = at } in
      let at_id : (cid : String) → chat.id ≡ cid → Dict.lookup cid s.chats ≡ some chat =
        λ cid here. ap (λ (j : String). Dict.lookup j s.chats) (sym here) ∙ stored in
      record {
        own_id = λ cid d e. elim (lookup-insert_cases chat.id cid touched d s.chats e) [
          | inl (here, same) ↦ ap (λ (x : Chat). x.id) (sym same) ∙ here
          | inr (_, old) ↦ h.own_id cid d old
        ];
        history = λ cid d e. elim (lookup-insert_cases chat.id cid touched d s.chats e) [
          | inl (here, same) ↦ h.history cid chat (at_id cid here)
          | inr (_, old) ↦ h.history cid d old
        ];
        indexed = λ t.
            All-map (λ k. Owned-insert s.chats chat.id touched t k (λ old found. cc)) (ids_of t s)
              (h.indexed t);
        complete = λ cid d e. elim (lookup-insert_cases chat.id cid touched d s.chats e) [
          | inl (here, same) ↦
              subst (λ (t : String). Listed cid (ids_of t s)) (ap (λ (x : Chat). x.tenant_id) same)
                (h.complete cid chat (at_id cid here))
          | inr (_, old) ↦ h.complete cid d old
        ];
        placed = h.placed;
      }

  module _ (f : Fresh) (req : PostUserMessageRequest) (llm : LlmAdapter) where
    weaken : (u : State) → InChat chat u → IsValid u
    weaken u h = h.0

    add_context-InChat :
        (snippets : List String) (citations : List Citation) (messages : List Message) (s : State)
        → InChat chat s
        → InChat chat (add_context f chat snippets citations messages s).1
    unfolding add_context
    add_context-InChat [] citations messages s h = h
    add_context-InChat (x ∷ snippets) citations messages s h =
        let context = context_message f chat (x ∷ snippets) citations in
        bind_rule (InChat chat) (InChat chat) (append_message chat.id context)
          (λ _. pure (messages ++ context ∷ [])) s (λ u k. k)
          (append_message-InChat context s refl h) (λ _ u k. k)

    finish-IsValid :
        (citations : List Citation) (content : String) (s : State)
        → InChat chat s
        → IsValid (finish f chat req llm citations content s).1
    unfolding finish
    finish-IsValid citations content s h =
        let made = assistant_message f chat llm content citations in
        bind_rule (InChat chat) IsValid (append_message chat.id made) _ s weaken
          (append_message-InChat made s refl h) (λ _ u k. touch-IsValid f.touched_at u k)

    reply-IsValid :
        (citations : List Citation) (for_llm : List Message) (s : State)
        → InChat chat s
        → IsValid (reply f req llm chat citations for_llm s).1
    unfolding reply
    reply-IsValid citations for_llm s h = elim (Option-cases (llm.generate req.tenant_id for_llm)) [
      | inl failed ↦ rw failed (h.0)
      | inr (content, made) ↦ rw made (finish-IsValid citations content s h)
    ]

    answer-IsValid :
        (snippets : List String) (citations : List Citation) (s : State)
        → InChat chat s
        → IsValid (answer f req llm chat snippets citations s).1
    unfolding answer
    answer-IsValid snippets citations s h =
        elim (Option-cases (Dict.lookup chat.id s.messages_by_chat)) [
          | inl missing ↦ rw missing (h.0)
          | inr (messages, found) ↦ rw found (
              bind_rule (InChat chat) IsValid (add_context f chat snippets citations messages)
                (reply f req llm chat citations) s weaken
                (add_context-InChat snippets citations messages s h) (reply-IsValid citations))
        ]

    post_in-IsValid :
        (retrieval : Option RetrievalAdapter) (s : State)
        → InChat chat s
        → IsValid (post_in f req llm retrieval chat s).1
    unfolding post_in
    post_in-IsValid retrieval s h =
        let asked = user_message f chat req in
        bind_rule (InChat chat) IsValid (append_message chat.id asked) _ s weaken
          (append_message-InChat asked s refl h)
          (λ _ u k. elim (Option-cases (retrieved retrieval req)) [
            | inl failed ↦ rw failed (k.0)
            | inr ((snippets, citations), found) ↦ rw found (answer-IsValid snippets citations u k)
          ])

-- the invariant under `post_user_message`, whatever it returns or raises
pub post_user_message-IsValid :
    (f : Fresh) (req : PostUserMessageRequest) (llm : LlmAdapter)
    (retrieval : Option RetrievalAdapter) (s : State)
    → IsValid s
    → IsValid (post_user_message f req llm retrieval s).1
unfolding post_user_message
post_user_message-IsValid f req llm retrieval s h =
    elim (Option-cases (Dict.lookup req.chat_id s.chats)) [
      | inl missing ↦ rw missing h
      | inr (chat, found) ↦
          let stored : Dict.lookup chat.id s.chats ≡ some chat =
            ap (λ (j : String). Dict.lookup j s.chats) (h.own_id req.chat_id chat found) ∙ found in
          elim (Bool-cases (str_eq chat.tenant_id req.tenant_id)) [
            | inl mine ↦ elim (Bool-cases (is_blank req.content)) [
              | inl blank ↦ rw (found, mine, blank) h
              | inr written ↦
                  rw (found, mine, written) (post_in-IsValid chat f req llm retrieval s (h, stored))
            ]
            | inr other ↦ rw (found, other) h
          ]
    ]
