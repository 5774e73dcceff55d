-- ===== src/Chat/Answers.antt =====
-- What a call of `post_user_message` returns or raises.
use lbpr.Prelude.{
  String, ◌≡◌, refl, Option, none, some, List, [], ◌∷◌, ◌++◌, inl, inr, Option-cases,
}
use lbpr.Dict
use lbpr.Dict.{lookup-insert_self}
use lbpr.Chat.Contracts.{
  Chat, Citation, Message, PostUserMessageRequest, PostUserMessageResponse, LlmAdapter,
  RetrievalAdapter, upstream_error,
}
use lbpr.Chat.Action.{State, Result, ok, err}
use lbpr.Chat.Posting.{
  Fresh, user_message, assistant_message, retrieved, add_context, reply, answer, post_in,
  post_user_message,
}
use lbpr.Chat.Transcript.{context_part, MayPost, post_user_message-eq, add_context-eq}

module _ (f : Fresh) (req : PostUserMessageRequest) (llm : LlmAdapter) (chat : Chat) where
  abbrev pub response_to : List Citation → Option String → Result PostUserMessageResponse
  response_to citations none = err upstream_error
  response_to citations (some content) = ok (record {
    user_message = user_message f chat req;
    assistant_message = assistant_message f chat llm content citations;
  })

  -- the answer, from the history before the call and what retrieval returned
  abbrev pub result_after :
      List Message → Option (List String × List Citation) → Result PostUserMessageResponse
  result_after old none = err upstream_error
  result_after old (some (snippets, citations)) = response_to citations (
      llm.generate req.tenant_id
        ((old ++ user_message f chat req ∷ []) ++ context_part f chat snippets citations))

  reply-result :
      (citations : List Citation) (for_llm messages : List Message) (s : State)
      → Dict.lookup chat.id s.messages_by_chat ≡ some messages
      → (reply f req llm chat citations for_llm s).0
        ≡ response_to citations (llm.generate req.tenant_id for_llm)
  unfolding reply
  reply-result citations for_llm messages s h =
      elim (Option-cases (llm.generate req.tenant_id for_llm)) [
        | inl failed ↦ rw failed refl
        | inr (content, made) ↦ rw (made, h) refl
      ]

  answer-result :
      (snippets : List String) (citations : List Citation) (s : State) (messages : List Message)
      → Dict.lookup chat.id s.messages_by_chat ≡ some messages
      → (answer f req llm chat snippets citations s).0
        ≡ response_to citations
            (llm.generate req.tenant_id (messages ++ context_part f chat snippets citations))
  unfolding answer
  answer-result snippets citations s messages h =
      let (returned, kept) = add_context-eq f req llm chat snippets citations s messages h in
      rw (h, returned)
        (reply-result citations (messages ++ context_part f chat snippets citations) _
          (add_context f chat snippets citations messages s).1 kept)

  post_in-result :
      (retrieval : Option RetrievalAdapter) (s : State) (old : List Message)
      → Dict.lookup chat.id s.messages_by_chat ≡ some old
      → (post_in f req llm retrieval chat s).0 ≡ result_after old (retrieved retrieval req)
  unfolding post_in
  post_in-result retrieval s old h = elim (Option-cases (retrieved retrieval req)) [
    | inl failed ↦ rw (h, failed) refl
    | inr ((snippets, citations), found) ↦
        rw (h, found)
          (answer-result snippets citations
            (record s {
              messages_by_chat =
                  Dict.insert chat.id (old ++ user_message f chat req ∷ []) s.messages_by_chat;
            })
            (old ++ user_message f chat req ∷ []) (lookup-insert_self chat.id _ _))
  ]

-- An allowed call raises `UpstreamError` if retrieval or the model fails, and returns the user's
-- message and the model's answer otherwise. The model is given the tenant, and the whole history
-- with the user's message and the context last.
pub post_user_message-result :
    (f : Fresh) (req : PostUserMessageRequest) (llm : LlmAdapter)
    (retrieval : Option RetrievalAdapter) (chat : Chat) (s : State) (old : List Message)
    → MayPost req chat s
    → Dict.lookup chat.id s.messages_by_chat ≡ some old
    → (post_user_message f req llm retrieval s).0
      ≡ result_after f req llm chat old (retrieved retrieval req)
post_user_message-result f req llm retrieval chat s old may h =
    rw (post_user_message-eq f req llm retrieval chat s may)
      (post_in-result f req llm chat retrieval s old h)
