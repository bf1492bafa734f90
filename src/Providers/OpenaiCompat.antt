-- ===== src/Providers/OpenaiCompat.antt =====
-- pkg/providers/openai_compat/openai_compat.go: the request and the response in one piece. The HTTP
-- exchange around them is not modelled.
pub mod Stream
pub mod Fragments
use souz_go.Prelude.{
  ℤ, pos, Bool, true, false, List, [], ◌∷◌, ◌++◌, Text, Option, none, some, codes, text_eq,
  is_positive, float_is_zero, if◌then◌else◌,
}
use souz_go.Providers.{
  Float64, Message, ToolCall, ToolDefinition, ChatRequest, ChatResponse, FinishReason, Usage, Role,
}

abbrev pub default_model : Text
default_model = codes "gpt-5-nano"

-- The type of a call is always "function".
pub record ChatToolCall : Type 0 where
  pub id : Text
  pub type : Text
  pub name : Text
  pub arguments : Text

pub record ChatMessage : Type 0 where
  pub role : Text
  pub content : Text
  pub name : Text
  pub tool_call_id : Text
  pub tool_calls : List ChatToolCall

pub record ChatTool : Type 0 where
  pub type : Text
  pub name : Text
  pub description : Text
  pub parameters : Text

-- 0 and the empty string stand for fields that are left out.
pub record ApiRequest : Type 0 where
  pub model : Text
  pub messages : List ChatMessage
  pub stream : Bool
  pub max_completion_tokens : ℤ
  pub temperature : Option Float64
  pub tools : List ChatTool
  pub tool_choice : Text

abbrev pub plain_message : Text → Text → ChatMessage
plain_message role content = record {
  role = role;
  content = content;
  name = [];
  tool_call_id = [];
  tool_calls = [];
}

unfoldable pub chat_tool_calls : List ToolCall → List ChatToolCall
chat_tool_calls [] = []
chat_tool_calls (tc ∷ tcs) =
    record { id = tc.id; type = codes "function"; name = tc.name; arguments = tc.args }
    ∷ chat_tool_calls tcs

unfoldable pub build_assistant_message : Message → ChatMessage
unfolding chat_tool_calls
build_assistant_message m = record (plain_message (codes "assistant") m.content) {
  tool_calls = chat_tool_calls m.tool_calls;
}

unfoldable pub chat_message : Message → ChatMessage
unfolding build_assistant_message
chat_message m = elim m.role [
  | Role.system ↦ plain_message (codes "system") m.content
  | Role.tool ↦ record (plain_message (codes "tool") m.content) { tool_call_id = m.tool_call_id }
  | Role.assistant ↦ build_assistant_message m
  | _ ↦ record (plain_message (codes "user") m.content) { name = m.name }
]

unfoldable pub chat_messages : List Message → List ChatMessage
unfolding chat_message
chat_messages [] = []
chat_messages (m ∷ ms) = chat_message m ∷ chat_messages ms

unfoldable pub build_messages : ChatRequest → List ChatMessage
unfolding chat_messages
build_messages req =
    if text_eq req.system_prompt []
    then chat_messages req.messages
    else plain_message (codes "system") req.system_prompt ∷ chat_messages req.messages

unfoldable pub build_tools : List ToolDefinition → List ChatTool
build_tools [] = []
build_tools (d ∷ ds) =
    record {
      type = codes "function";
      name = d.name;
      description = d.description;
      parameters = d.input_schema;
    }
    ∷ build_tools ds

unfoldable pub build_request : ChatRequest → Bool → ApiRequest
unfolding build_messages build_tools float_is_zero
build_request req stream = record {
  model = if text_eq req.model [] then default_model else req.model;
  messages = build_messages req;
  stream = stream;
  max_completion_tokens = if is_positive req.max_tokens then req.max_tokens else pos 0;
  temperature = if float_is_zero req.temperature then none else some req.temperature;
  tools = build_tools req.tools;
  tool_choice = elim req.tools [ [] ↦ [] | d ∷ ds ↦ codes "auto" ];
}

pub record ResponseCall : Type 0 where
  pub id : Text
  pub name : Text
  pub arguments : Text

pub record Choice : Type 0 where
  pub content : Text
  pub tool_calls : List ResponseCall
  pub finish_reason : Text

pub record ApiResponse : Type 0 where
  pub choices : List Choice
  pub usage : Usage

-- The strings of FinishReason; the zero value is the empty one.
unfoldable pub to_finish_reason : Text → FinishReason
to_finish_reason reason =
    if text_eq reason (codes "tool_calls")
    then FinishReason.tool_use
    else if text_eq reason (codes "length")
    then FinishReason.length
    else FinishReason.stop

unfoldable pub to_raw_args : Text → Text
to_raw_args s = if text_eq s [] then codes "{}" else s

unfoldable pub response_calls : List ResponseCall → List ToolCall
unfolding to_raw_args
response_calls [] = []
response_calls (tc ∷ tcs) =
    record { id = tc.id; name = tc.name; args = to_raw_args tc.arguments } ∷ response_calls tcs

unfoldable pub to_chat_response : ApiResponse → ChatResponse
unfolding to_finish_reason response_calls
to_chat_response r = elim r.choices [
  | [] ↦ record {
    content = [];
    tool_calls = [];
    usage = r.usage;
    finish_reason = FinishReason.unknown [];
  }
  | choice ∷ choices ↦ record {
    content = choice.content;
    tool_calls = response_calls choice.tool_calls;
    usage = r.usage;
    finish_reason = to_finish_reason choice.finish_reason;
  }
]
