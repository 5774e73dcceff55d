-- ===== src/Llm/Contracts.antt =====
-- components/llmadapter/contracts.py. Of a request the sampling options and tools are left out, and
-- of answers the tool calls: the modelled provider reads and sets none of them.
use lbpr.Prelude.{ℕ, String, Bool, true, false, Option, List, [], ◌∷◌, if◌then◌else◌}
use lbpr.Dict.{Dict}
use lbpr.Value.{Value}
use lbpr.Text.{is_space}
use lbpr.Text.Strip.{strip, no_text}

pub data Role : Type 0 where
  system : Role
  user : Role
  assistant : Role
  tool : Role

pub record PromptMessage : Type 0 where
  pub role : Role
  pub content : String
  pub name : Option String
  pub tool_call_id : Option String

pub record ChatRequest : Type 0 where
  pub model : String
  pub messages : List PromptMessage
  pub metadata : Dict Value

-- `content_not_empty` and `at_least_one_message`
unfoldable pub has_content : PromptMessage → Bool
unfolding strip is_space no_text
has_content m = if no_text (strip is_space m.content) then false else true

unfoldable pub all_have_content : List PromptMessage → Bool
unfolding has_content
all_have_content [] = true
all_have_content (m ∷ ms) =
    let rest : Bool = all_have_content ms in if has_content m then rest else false

unfoldable pub is_valid : ChatRequest → Bool
unfolding all_have_content
is_valid req = elim req.messages [ [] ↦ false | m ∷ ms ↦ all_have_content (m ∷ ms) ]

pub record Usage : Type 0 where
  pub prompt_tokens : ℕ
  pub completion_tokens : ℕ
  pub total_tokens : ℕ

pub record ChatResponseChoice : Type 0 where
  pub index : ℕ
  pub message : PromptMessage
  pub finish_reason : Option String

pub record ChatResponse : Type 0 where
  pub id : String
  pub model : String
  pub choices : List ChatResponseChoice
  pub usage : Usage
  pub provider : Option String
  pub request_id : Option String
  pub span_id : Option String

pub data Event : Type 0 where
  chunk : Event
  end : Event

pub record ChatDelta : Type 0 where
  pub id : Option String
  pub model : Option String
  pub content_delta : Option String
  pub usage : Option Usage
  pub event : Event
