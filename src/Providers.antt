-- ===== src/Providers.antt =====
-- pkg/providers/types.go: the conversation and the requests and responses of a chat model.
pub mod IntMap
pub mod Anthropic
pub mod OpenaiCompat
use souz_go.Prelude.{ℕ, Bool, true, false, List, Text, ℤ}

-- A float64, as the 64 bits that hold it: the code modelled here passes it on and never computes.
abbrev pub Float64 : Type 0
Float64 = ℕ

-- `Role` is a string; `unknown` is any other than the four constants.
pub data Role : Type 0 where
  system user assistant tool : Role
  unknown : Text → Role

-- m.Role == RoleAssistant, and the like.
abbrev pub is_assistant : Role → Bool
is_assistant Role.assistant = true
is_assistant _ = false

abbrev pub is_user : Role → Bool
is_user Role.user = true
is_user _ = false

pub record ContentPart : Type 0 where
  pub type : Text
  pub text : Text
  pub tool_call_id : Text
  pub content : Text
  pub is_error : Bool

-- json.RawMessage is the bytes of the JSON text.
pub record ToolCall : Type 0 where
  pub id : Text
  pub name : Text
  pub args : Text

pub record Message : Type 0 where
  pub role : Role
  pub content : Text
  pub parts : List ContentPart
  pub tool_call_id : Text
  pub name : Text
  pub tool_calls : List ToolCall

pub record ToolDefinition : Type 0 where
  pub name : Text
  pub description : Text
  pub input_schema : Text

pub record ChatRequest : Type 0 where
  pub model : Text
  pub messages : List Message
  pub tools : List ToolDefinition
  pub system_prompt : Text
  pub temperature : Float64
  pub max_tokens : ℤ

pub data FinishReason : Type 0 where
  stop tool_use length : FinishReason
  unknown : Text → FinishReason

pub record Usage : Type 0 where
  pub input_tokens : ℤ
  pub output_tokens : ℤ

pub record ChatResponse : Type 0 where
  pub content : Text
  pub tool_calls : List ToolCall
  pub usage : Usage
  pub finish_reason : FinishReason

-- A message with the zero values of the fields that the code does not set.
abbrev pub text_message : Role → Text → Message
text_message r s = record {
  role = r;
  content = s;
  parts = List.[];
  tool_call_id = List.[];
  name = List.[];
  tool_calls = List.[];
}
