-- ===== src/Llm/Fake.antt =====
-- components/llmadapter/providers/fake.py: `FakeProvider`. The digest of hashlib and what pydantic
-- makes of a value for an optional text are fields of `Libs`.
use Prim.Native.String.{◌++◌ as join_text, count}
use lbpr.Prelude.{
  ℕ, zero, suc, ◌+◌, ◌/◌, String, Bool, true, false, ◌&&◌, not, Option, none, some, List, [], ◌∷◌,
  ◌++◌, reverse, ltb, if◌then◌else◌,
}
use lbpr.Dict
use lbpr.Value.{Value}
use lbpr.Text.{is_space}
use lbpr.Text.Slice.{slice}
use lbpr.Text.Strip.{strip, no_text}
use lbpr.Llm.Contracts.{
  Role, assistant, PromptMessage, ChatRequest, Usage, ChatResponse, ChatDelta, Event,
}

-- `sha1_hex` is the hexadecimal digest of the UTF-8 of a text; `optional_text` is the validation of
-- `Optional[str]`, none for a ValidationError.
pub record Libs : Type 0 where
  pub sha1_hex : String → String
  pub optional_text : Option Value → Option (Option String)

abbrev pub stripped : String → String
stripped s = strip is_space s

abbrev pub is_user : Role → Bool
is_user Role.user = true
is_user Role.system = false
is_user Role.assistant = false
is_user Role.tool = false

-- the loop over the reversed messages, none where it finds none
unfoldable pub find_user : List PromptMessage → Option String
unfolding strip is_space no_text
find_user [] = none
find_user (m ∷ ms) =
    let rest : Option String = find_user ms in
    if is_user m.role && not (no_text (stripped m.content)) then some (stripped m.content) else rest

-- `req.messages[-1].content.strip()`; without messages an IndexError
unfoldable pub last_content : List PromptMessage → Option String
unfolding strip is_space
last_content [] = none
last_content (m ∷ ms) = some (stripped m.content)

abbrev pub or_last : Option String → Option String → Option String
or_last (some content) last = some content
or_last none last = last

unfoldable pub last_user_content : ChatRequest → Option String
unfolding find_user last_content
last_user_content req =
    or_last (find_user (reverse req.messages)) (last_content (reverse req.messages))

-- f"[fake:{req.model}] {user_last}".strip()
unfoldable pub content_of : ChatRequest → String → String
unfolding strip is_space
content_of req user_last =
    stripped (join_text "[fake:" (join_text req.model (join_text "] " user_last)))

unfoldable pub rid : Libs → ChatRequest → String → String
unfolding slice
rid libs req user_last =
    join_text "fake_" (slice 0 16 (libs.sha1_hex (join_text req.model user_last)))

unfoldable pub prompt_len : List PromptMessage → ℕ
prompt_len [] = 0
prompt_len (m ∷ ms) = count m.content + prompt_len ms

unfoldable pub fake_usage : ChatRequest → String → Usage
unfolding prompt_len
fake_usage req completion = record {
  prompt_tokens = prompt_len req.messages / 4;
  completion_tokens = count completion / 4;
  total_tokens = (prompt_len req.messages + count completion) / 4;
}

abbrev pub answer : String → PromptMessage
answer content = record { role = assistant; content = content; name = none; tool_call_id = none }

abbrev pub response : Libs → ChatRequest → String → Option String → Option String → ChatResponse
response libs req user_last request_id span_id = record {
  id = rid libs req user_last;
  model = req.model;
  choices =
      record { index = 0; message = answer (content_of req user_last); finish_reason = some "stop" }
      ∷ [];
  usage = fake_usage req (content_of req user_last);
  provider = some "fake";
  request_id = request_id;
  span_id = span_id;
}

abbrev pub with_ids_of :
    Libs
    → ChatRequest
    → String
    → Option (Option String)
    → Option (Option String)
    → Option ChatResponse
with_ids_of libs req user_last none span_id = none
with_ids_of libs req user_last (some request_id) none = none
with_ids_of libs req user_last (some request_id) (some span_id) =
    some (response libs req user_last request_id span_id)

abbrev pub generate_for : Libs → ChatRequest → Option String → Option ChatResponse
generate_for libs req none = none
generate_for libs req (some user_last) =
    with_ids_of libs req user_last (libs.optional_text (Dict.lookup "request_id" req.metadata))
      (libs.optional_text (Dict.lookup "span_id" req.metadata))

-- none is an exception
unfoldable pub generate : Libs → ChatRequest → Option ChatResponse
unfolding last_user_content content_of rid fake_usage
generate libs req = generate_for libs req (last_user_content req)

abbrev pub chunk_frame : String → String → String → ChatDelta
chunk_frame id model piece = record {
  id = some id;
  model = some model;
  content_delta = some piece;
  usage = none;
  event = Event.chunk;
}

abbrev pub end_frame : String → String → Usage → ChatDelta
end_frame id model usage = record {
  id = some id;
  model = some model;
  content_delta = none;
  usage = some usage;
  event = Event.end;
}

-- `for i in range(0, len(full), chunk_size)`, from an index on; each round is a character at least,
-- so as many rounds as there are characters are enough
unfoldable pub chunk_frames : ℕ → ℕ → ℕ → String → String → String → List ChatDelta
unfolding slice
chunk_frames zero chunk_size i id model full = []
chunk_frames (suc fuel) chunk_size i id model full =
    let rest : List ChatDelta =
      chunk_frame id model (slice i (i + chunk_size) full)
      ∷ chunk_frames fuel chunk_size (i + chunk_size) id model full in
    if ltb i (count full) then rest else []

abbrev pub chunk_size : ℕ
chunk_size = 6

abbrev pub stream_for : Libs → ChatRequest → Option String → Option (List ChatDelta)
stream_for libs req none = none
stream_for libs req (some user_last) =
    let full : String = content_of req user_last in
    let id : String = rid libs req user_last in
    some (
      chunk_frames (count full) chunk_size 0 id req.model full
      ++ end_frame id req.model (fake_usage req full) ∷ [])

unfoldable pub stream : Libs → ChatRequest → Option (List ChatDelta)
unfolding last_user_content content_of rid fake_usage chunk_frames
stream libs req = stream_for libs req (last_user_content req)
