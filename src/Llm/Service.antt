-- ===== src/Llm/Service.antt =====
-- components/llmadapter/service.py: `make_provider` and `LLMAdapterService`, and routes.py. The
-- measured times are left out. A call takes the ids that it may draw.
use lbpr.Prelude.{String, Option, none, some, List, map, str_eq, if◌then◌else◌}
use lbpr.Dict
use lbpr.Dict.{Dict}
use lbpr.Value.{Value}
use lbpr.Text.Strip.{no_text}
use lbpr.Llm.Contracts.{ChatRequest, ChatResponse, ChatDelta}
use lbpr.Llm.Fake.{Libs, generate, stream}

-- `LLMProvider`; none is an exception
pub record LlmProvider : Type 0 where
  pub generate : ChatRequest → Option ChatResponse
  pub stream : ChatRequest → Option (List ChatDelta)

-- the stubs of OpenAI and Anthropic, which raise NotImplementedError
abbrev pub stub : LlmProvider
stub = record { generate = λ req. none; stream = λ req. none }

abbrev pub fake : Libs → LlmProvider
fake libs = record { generate = generate libs; stream = stream libs }

-- by the value of LLM_PROVIDER in lower case
unfoldable pub make_provider : Libs → String → LlmProvider
make_provider libs provider =
    if str_eq provider "openai"
    then stub
    else if str_eq provider "anthropic"
    then stub
    else fake libs

-- `md.setdefault(key, md.get(key) or fresh)`: a key that is there keeps its value, whatever it is
unfoldable pub set_default : String → String → Dict Value → Dict Value
set_default key fresh md =
    if Dict.contains key md then md else Dict.insert key (Value.text fresh) md

unfoldable pub with_ids : String × String → ChatRequest → ChatRequest
unfolding set_default
with_ids (request_id, span_id) req = record req {
  metadata = set_default "span_id" span_id (set_default "request_id" request_id req.metadata);
}

unfoldable pub chat : LlmProvider → String × String → ChatRequest → Option ChatResponse
unfolding with_ids
chat provider ids req = provider.generate (with_ids ids req)

unfoldable pub chat_stream : LlmProvider → String × String → ChatRequest → Option (List ChatDelta)
unfolding with_ids
chat_stream provider ids req = provider.stream (with_ids ids req)

-- `if x_request_id: req.metadata = {**req.metadata, "request_id": x_request_id}`
unfoldable pub propagate : Option String → ChatRequest → ChatRequest
propagate none req = req
propagate (some x_request_id) req =
    if no_text x_request_id
    then req
    else record req { metadata = Dict.insert "request_id" (Value.text x_request_id) req.metadata }

unfoldable pub post_chat :
    LlmProvider → String × String → Option String → ChatRequest → Option ChatResponse
unfolding propagate chat
post_chat provider ids x_request_id req = chat provider ids (propagate x_request_id req)

-- the lines of the stream, by the printing of a frame
unfoldable pub post_chat_stream :
    (ChatDelta → String)
    → LlmProvider
    → String × String
    → Option String
    → ChatRequest
    → Option (List String)
unfolding propagate chat_stream
post_chat_stream line provider ids x_request_id req =
    elim (chat_stream provider ids (propagate x_request_id req)) [
      | none ↦ none
      | some frames ↦ some (map line frames)
    ]
