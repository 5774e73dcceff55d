-- ===== src/Llm/Tests.antt =====
-- A question and its answer, in one piece and as a stream.
use Prim.Native.String.{count}
use lbpr.Prelude.{◌≤◌, ◌<◌, ◌≡◌, refl, String, none, some, List, [], ◌∷◌, ◌++◌, map, All, true}
use lbpr.Dict.{lookup, insert}
use lbpr.Value.{Value}
use lbpr.Llm.Contracts.{Role, ChatRequest, ChatResponse, is_valid}
use lbpr.Llm.Fake.{Libs, answer, response, generate, stream, chunk_frame, end_frame, content_of}
use lbpr.Llm.Service.{fake, chat, chat_stream, post_chat, make_provider}
use lbpr.Llm.Streams.{joined, chat_stream-chat}

abbrev libs : Libs
libs = record {
  sha1_hex = λ s. "0123456789abcdef0123";
  optional_text = λ v. elim v [
    | none ↦ some none
    | some w ↦ elim w [ Value.text t ↦ some (some t) | _ ↦ none ]
  ];
}

abbrev question : ChatRequest
question = record {
  model = "m";
  messages =
      record { role = Role.user; content = " hi "; name = none; tool_call_id = none }
      ∷ record { role = Role.assistant; content = "yes?"; name = none; tool_call_id = none }
      ∷ [];
  metadata = ("request_id", Value.text "r0") ∷ [];
}

question_valid : is_valid question ≡ true
unfolding is_valid
question_valid = refl

abbrev answered : ChatResponse
answered = response libs question "hi" (some "r0") (some "s1")

answered_lem : chat (fake libs) ("r1", "s1") question ≡ some answered
unfolding chat generate lookup insert
answered_lem = refl

chat_stream-chat_example :
    (texts : List String) × (chat_stream (fake libs) ("r2", "s2") question
      ≡ some (
          map (chunk_frame answered.id answered.model) texts
          ++ end_frame answered.id answered.model answered.usage ∷ []))
    × (answered.choices
        ≡ record { index = 0; message = answer (joined texts); finish_reason = some "stop" } ∷ [])
    × All (λ s. (0 < count s) × (count s ≤ 6)) texts
chat_stream-chat_example =
    chat_stream-chat libs ("r1", "s1") ("r2", "s2") question answered answered_lem

spoken : content_of question "hi" ≡ "[fake:m] hi"
unfolding content_of
spoken = refl

streamed :
    stream libs question
    ≡ some (
        chunk_frame "fake_0123456789abcdef" "m" "[fake:"
        ∷ chunk_frame "fake_0123456789abcdef" "m" "m] hi"
        ∷ end_frame "fake_0123456789abcdef" "m"
            (record { prompt_tokens = 2; completion_tokens = 2; total_tokens = 4 })
        ∷ [])
unfolding stream
streamed = refl

not_implemented : post_chat (make_provider libs "openai") ("r", "s") (some "x") question ≡ none
unfolding post_chat make_provider
not_implemented = refl
