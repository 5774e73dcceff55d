-- ===== src/Chat/Invariant.antt =====
-- The three dictionaries of the chat service agree, whatever the calls.
pub mod Posting
use lbpr.Prelude.{
  ℕ, ◌+◌, ◌-◌, ◌≤◌, String, ◌≡◌, ◌≢◌, refl, ap, sym, ◌∙◌, Bool, true, false, Option, none, some,
  List, [], ◌∷◌, ◌++◌, arith, eq_iff, str_eq, if◌then◌else◌, ◌⊎◌, inl, inr, Option-cases,
  Bool-cases, String-cases, All, All-append, All-map,
}
use lbpr.Dict
use lbpr.Dict.{Dict, lookup-insert_cases, lookup-insert, lookup-insert_self, lookup-insert_ne}
use lbpr.Chat.Contracts.{
  Chat, Citation, Message, CreateChatRequest, PostUserMessageRequest, PostUserMessageResponse,
  LlmAdapter, RetrievalAdapter, invalid_input,
}
use lbpr.Chat.Action.{State, Result, ok, err, ◌>>=◌}
use lbpr.Chat.Service.{init, or_empty, create_chat, new_chat, store_chat, title_of}

-- `a` is a chat of the tenant
abbrev pub Owned : Dict Chat → String → String → Type 0
Owned chats tenant_id chat_id =
    (c : Chat) × (Dict.lookup chat_id chats ≡ some c) × (c.tenant_id ≡ tenant_id)

abbrev pub Listed : String → List String → Type 0
Listed x [] = ⊥
Listed x (y ∷ l) = (x ≡ y) ⊎ Listed x l

abbrev pub ids_of : String → State → List String
ids_of tenant_id s = or_empty (Dict.lookup tenant_id s.tenant_chat_ids)

pub record IsValid (s : State) : Type 0 where
  -- a chat is stored under its own id
  pub own_id : (cid : String) (c : Chat) → Dict.lookup cid s.chats ≡ some c → c.id ≡ cid
  -- and has a history
  pub history :
      (cid : String) (c : Chat)
      → Dict.lookup cid s.chats ≡ some c
      → (l : List Message) × (Dict.lookup cid s.messages_by_chat ≡ some l)
  -- the index of a tenant names chats of that tenant only
  pub indexed : (t : String) → All (Owned s.chats t) (ids_of t s)
  -- and all of them
  pub complete :
      (cid : String) (c : Chat)
      → Dict.lookup cid s.chats ≡ some c
      → Listed cid (ids_of c.tenant_id s)
  -- a message stands in the history of its chat
  pub placed :
      (cid : String) (l : List Message)
      → Dict.lookup cid s.messages_by_chat ≡ some l
      → All (λ m. m.chat_id ≡ cid) l

pub IsValid-init : IsValid init
unfolding Dict.lookup
IsValid-init = record {
  own_id = λ cid c e. cc;
  history = λ cid c e. cc;
  indexed = λ t. tt;
  complete = λ cid c e. cc;
  placed = λ cid l e. cc;
}

-- A chat that is added, or given anew for the same tenant, takes no chat from a tenant.
Owned-insert :
    (chats : Dict Chat) (cid : String) (c : Chat) (t k : String)
    → ((old : Chat) → Dict.lookup cid chats ≡ some old → old.tenant_id ≡ c.tenant_id)
    → Owned chats t k
    → Owned (Dict.insert cid c chats) t k
Owned-insert chats cid c t k same (old, found, owner) = elim (String-cases cid k) [
  | inl (_, here) ↦
      let was : Dict.lookup cid chats ≡ some old =
        ap (λ (j : String). Dict.lookup j chats) here ∙ found in
      (
        c,
        ap (λ (j : String). Dict.lookup j (Dict.insert cid c chats)) (sym here)
            ∙ lookup-insert_self cid c chats,
        sym (same old was) ∙ owner,
      )
  | inr (_, other) ↦ (old, lookup-insert_ne cid k c chats other ∙ found, owner)
]

-- a new chat, under an id that is not in use
module _ (c : Chat) (s : State) (fresh : Dict.lookup c.id s.chats ≡ none) (h : IsValid s) where
  unchanged_owner : (old : Chat) → Dict.lookup c.id s.chats ≡ some old → old.tenant_id ≡ c.tenant_id
  unchanged_owner old found = cc

  -- the index of a tenant after the insertion
  ids_of-store_chat :
      (t : String)
      → ids_of t (store_chat c s) ≡ (if str_eq c.tenant_id t then c.id ∷ ids_of t s else ids_of t s)
  unfolding store_chat
  ids_of-store_chat t = elim (String-cases c.tenant_id t) [
    | inl (test, same) ↦ rw (lookup-insert, test) (ap (λ (u : String). c.id ∷ ids_of u s) same)
    | inr (test, _) ↦ rw (lookup-insert, test) refl
  ]

  store_chat-indexed :
      (t : String) → All (Owned (store_chat c s).chats t) (ids_of t (store_chat c s))
  unfolding store_chat
  store_chat-indexed t =
      let kept : All (Owned (Dict.insert c.id c s.chats) t) (ids_of t s) =
        All-map (λ k. Owned-insert s.chats c.id c t k unchanged_owner) (ids_of t s) (h.indexed t) in
      elim (String-cases c.tenant_id t) [
        | inl (test, same) ↦
            rw (ids_of-store_chat, test) ((c, lookup-insert_self c.id c s.chats, same), kept)
        | inr (test, _) ↦ rw (ids_of-store_chat, test) kept
      ]

  store_chat_complete :
      (cid : String) (d : Chat)
      → Dict.lookup cid (store_chat c s).chats ≡ some d
      → Listed cid (ids_of d.tenant_id (store_chat c s))
  unfolding store_chat
  store_chat_complete cid d e = elim (lookup-insert_cases c.id cid c d s.chats e) [
    | inl (here, same) ↦
        rw (← same, ids_of-store_chat, (eq_iff c.tenant_id c.tenant_id).1 refl) (inl (sym here))
    | inr (_, old) ↦ elim (String-cases c.tenant_id d.tenant_id) [
      | inl (test, _) ↦ rw (ids_of-store_chat, test) (inr (h.complete cid d old))
      | inr (test, _) ↦ rw (ids_of-store_chat, test) (h.complete cid d old)
    ]
  ]

  store_chat-IsValid : IsValid (store_chat c s)
  unfolding store_chat
  store_chat-IsValid = record {
    own_id = λ cid d e. elim (lookup-insert_cases c.id cid c d s.chats e) [
      | inl (here, same) ↦ ap (λ (x : Chat). x.id) (sym same) ∙ here
      | inr (_, old) ↦ h.own_id cid d old
    ];
    history = λ cid d e. elim (String-cases c.id cid) [
      | inl (test, _) ↦ ([], rw (lookup-insert, test) refl)
      | inr (_, other) ↦
          let (l, found) = h.history cid d (sym (lookup-insert_ne c.id cid c s.chats other) ∙ e) in
          (l, lookup-insert_ne c.id cid [] s.messages_by_chat other ∙ found)
    ];
    indexed = store_chat-indexed;
    complete = store_chat_complete;
    placed = λ cid l e. elim (lookup-insert_cases c.id cid [] l s.messages_by_chat e) [
      | inl (_, none_yet) ↦ rw (← none_yet) tt
      | inr (_, old) ↦ h.placed cid l old
    ];
  }

-- the invariant under `create_chat`, whatever it returns
pub create_chat-IsValid :
    (chat_id : String) (now : ℕ) (req : CreateChatRequest) (s : State)
    → Dict.lookup chat_id s.chats ≡ none
    → IsValid s
    → IsValid (create_chat chat_id now req s).1
unfolding create_chat
create_chat-IsValid chat_id now req s fresh h = elim (Bool-cases (str_eq req.tenant_id "")) [
  | inl nobody ↦ rw nobody h
  | inr somebody ↦ rw somebody (store_chat-IsValid (new_chat chat_id now req) s fresh h)
]
