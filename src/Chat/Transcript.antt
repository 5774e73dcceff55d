-- ===== src/Chat/Transcript.antt =====
-- What a call of `post_user_message` leaves in the history of its chat, on every path.
use lbpr.Prelude.{
  String, ◌≡◌, refl, ap, ◌∙◌, true, false, Option, none, some, List, [], ◌∷◌, ◌++◌, eq_iff, str_eq,
  inl, inr, Option-cases,
}
use mathlib.Core.List.{append-nil, append_assoc}
use lbpr.Dict
use lbpr.Dict.{lookup-insert, lookup-insert_self, lookup-insert_ne}
use lbpr.Chat.Contracts.{
  Chat, Citation, Message, PostUserMessageRequest, LlmAdapter, RetrievalAdapter,
}
use lbpr.Chat.Action.{State, ok}
use lbpr.Chat.Service.{is_blank}
use lbpr.Chat.Posting.{
  Fresh, user_message, context_message, assistant_message, retrieved, add_context, reply, answer,
  post_in, post_user_message,
}

regroup {ℓ} :
    {A : Type ℓ} (a : List A) (x : A) (b c : List A)
    → ((a ++ x ∷ []) ++ b) ++ c ≡ a ++ ((x ∷ b) ++ c)
regroup a x b c = simp append_assoc

-- The messages that a call adds, read off the answers of the two ports.
abbrev pub context_part : Fresh → Chat → List String → List Citation → List Message
context_part f chat [] citations = []
context_part f chat (x ∷ snippets) citations = context_message f chat (x ∷ snippets) citations ∷ []

abbrev pub answer_part : Fresh → Chat → LlmAdapter → List Citation → Option String → List Message
answer_part f chat llm citations none = []
answer_part f chat llm citations (some content) =
    assistant_message f chat llm content citations ∷ []

module _ (f : Fresh) (req : PostUserMessageRequest) (llm : LlmAdapter) (chat : Chat) where
  abbrev pub added_after : List Message → Option (List String × List Citation) → List Message
  added_after old none = user_message f chat req ∷ []
  added_after old (some (snippets, citations)) =
      let context = context_part f chat snippets citations in
      let for_llm = (old ++ user_message f chat req ∷ []) ++ context in
      user_message f chat req ∷ context
      ++ answer_part f chat llm citations (llm.generate req.tenant_id for_llm)

  abbrev pub History : List Message → State → Type 0
  History l s = Dict.lookup chat.id s.messages_by_chat ≡ some l

  pub add_context-eq :
      (snippets : List String) (citations : List Citation) (s : State) (messages : List Message)
      → History messages s
      → let (r, s') = add_context f chat snippets citations messages s in
        (r ≡ ok (messages ++ context_part f chat snippets citations))
        × History (messages ++ context_part f chat snippets citations) s'
  unfolding add_context
  add_context-eq [] citations s messages h = rw append-nil (refl, h)
  add_context-eq (x ∷ snippets) citations s messages h = rw h (refl, lookup-insert_self chat.id _ _)

  reply-History :
      (citations : List Citation) (for_llm : List Message) (s : State) (messages : List Message)
      → History messages s
      → History
          (messages ++ answer_part f chat llm citations (llm.generate req.tenant_id for_llm))
          (reply f req llm chat citations for_llm s).1
  unfolding reply
  reply-History citations for_llm s messages h =
      elim (Option-cases (llm.generate req.tenant_id for_llm)) [
        | inl failed ↦ rw (failed, append-nil) h
        | inr (content, made) ↦ rw (made, h) (lookup-insert_self chat.id _ _)
      ]

  answer-History :
      (snippets : List String) (citations : List Citation) (s : State) (messages : List Message)
      → History messages s
      → let for_llm = messages ++ context_part f chat snippets citations in
        History
          (for_llm ++ answer_part f chat llm citations (llm.generate req.tenant_id for_llm))
          (answer f req llm chat snippets citations s).1
  unfolding answer
  answer-History snippets citations s messages h =
      let (returned, kept) = add_context-eq snippets citations s messages h in
      let for_llm : List Message = messages ++ context_part f chat snippets citations in
      let s' : State = (add_context f chat snippets citations messages s).1 in
      rw (h, returned) (reply-History citations for_llm s' for_llm kept)

  post_in-History :
      (retrieval : Option RetrievalAdapter) (s : State) (old : List Message)
      → History old s
      → History
          (old ++ added_after old (retrieved retrieval req))
          (post_in f req llm retrieval chat s).1
  unfolding post_in
  post_in-History retrieval s old h = elim (Option-cases (retrieved retrieval req)) [
    | inl failed ↦ rw (h, failed) (lookup-insert_self chat.id _ _)
    | inr ((snippets, citations), found) ↦
        let s' : State = record s {
          messages_by_chat =
              Dict.insert chat.id (old ++ user_message f chat req ∷ []) s.messages_by_chat;
        } in
        rw (h, found)
          (answer-History snippets citations s' (old ++ user_message f chat req ∷ [])
              (lookup-insert_self chat.id _ _)
            ∙ ap some (regroup old (user_message f chat req) _ _))
  ]

-- The chat of a request, where the request is allowed to post.
pub record MayPost (req : PostUserMessageRequest) (chat : Chat) (s : State) : Type 0 where
  pub found : Dict.lookup req.chat_id s.chats ≡ some chat
  pub own_id : chat.id ≡ req.chat_id
  pub own_tenant : chat.tenant_id ≡ req.tenant_id
  pub not_blank : is_blank req.content ≡ false

pub post_user_message-eq :
    (f : Fresh) (req : PostUserMessageRequest) (llm : LlmAdapter)
    (retrieval : Option RetrievalAdapter) (chat : Chat) (s : State)
    → MayPost req chat s
    → post_user_message f req llm retrieval s ≡ post_in f req llm retrieval chat s
unfolding post_user_message
post_user_message-eq f req llm retrieval chat s may =
    let same : str_eq chat.tenant_id req.tenant_id ≡ true = (eq_iff _ _).1 may.own_tenant in
    rw (may.found, same, may.not_blank) refl

-- On every path of an allowed call, also where retrieval or the model raises, the history of the
-- chat grows by the user's message, then by the context message if retrieval returned snippets, then
-- by the assistant's message if the model answered the history so far. Nothing else is added, and
-- nothing is taken back.
pub post_user_message-transcript :
    (f : Fresh) (req : PostUserMessageRequest) (llm : LlmAdapter)
    (retrieval : Option RetrievalAdapter) (chat : Chat) (s : State) (old : List Message)
    → MayPost req chat s
    → Dict.lookup chat.id s.messages_by_chat ≡ some old
    → Dict.lookup chat.id (post_user_message f req llm retrieval s).1.messages_by_chat
      ≡ some (old ++ added_after f req llm chat old (retrieved retrieval req))
post_user_message-transcript f req llm retrieval chat s old may h =
    rw (post_user_message-eq f req llm retrieval chat s may)
      (post_in-History f req llm chat retrieval s old h)
