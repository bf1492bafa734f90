-- ===== src/Providers/Anthropic.antt =====
-- pkg/providers/anthropic/anthropic.go: the request. The HTTP exchange around it is not modelled.
pub mod Response
pub mod Stream
pub mod Events
pub mod Agreement
use souz_go.Prelude.{
  ℕ, ◌==◌, ◌||◌, ℤ, pos, Bool, true, false, List, [], ◌∷◌, ◌++◌, Text, Option, none, some, codes,
  text_eq, is_positive, float_is_zero, if◌then◌else◌,
}
use souz_go.Providers.{Float64, Message, ContentPart, ToolCall, ToolDefinition, ChatRequest, Role}

abbrev pub default_model : Text
default_model = codes "claude-haiku-4-5-20251001"

abbrev pub default_max_tokens : ℤ
default_max_tokens = pos 4096

pub record ContentBlock : Type 0 where
  pub type : Text
  pub text : Text
  pub id : Text
  pub name : Text
  pub input : Text
  pub tool_use_id : Text
  pub content : Text
  pub is_error : Bool

pub record AnthropicMessage : Type 0 where
  pub role : Text
  pub content : List ContentBlock

pub record AnthropicTool : Type 0 where
  pub name : Text
  pub description : Text
  pub input_schema : Text

-- The type of the tool choice stands for the map that holds it.
pub record MessagesRequest : Type 0 where
  pub model : Text
  pub max_tokens : ℤ
  pub messages : List AnthropicMessage
  pub system : Text
  pub temperature : Option Float64
  pub stream : Bool
  pub tools : List AnthropicTool
  pub tool_choice : Option Text

abbrev pub text_block : Text → ContentBlock
text_block s = record {
  type = codes "text";
  text = s;
  id = [];
  name = [];
  input = [];
  tool_use_id = [];
  content = [];
  is_error = false;
}

abbrev pub tool_use_block : Text → Text → Text → ContentBlock
tool_use_block id name input = record {
  type = codes "tool_use";
  text = [];
  id = id;
  name = name;
  input = input;
  tool_use_id = [];
  content = [];
  is_error = false;
}

abbrev pub tool_result_block : Text → Text → Bool → ContentBlock
tool_result_block tool_use_id content is_error = record {
  type = codes "tool_result";
  text = [];
  id = [];
  name = [];
  input = [];
  tool_use_id = tool_use_id;
  content = content;
  is_error = is_error;
}

unfoldable pub tool_use_blocks : List ToolCall → List ContentBlock
tool_use_blocks [] = []
tool_use_blocks (tc ∷ tcs) = tool_use_block tc.id tc.name tc.args ∷ tool_use_blocks tcs

unfoldable pub build_assistant_blocks : Message → List ContentBlock
unfolding tool_use_blocks
build_assistant_blocks m =
    let calls = tool_use_blocks m.tool_calls in
    let blocks = if text_eq m.content [] then calls else text_block m.content ∷ calls in
    elim blocks [ [] ↦ text_block [] ∷ [] | b ∷ bs ↦ b ∷ bs ]

unfoldable pub part_block : ContentPart → ContentBlock
part_block part =
    if text_eq part.type (codes "tool_result")
    then tool_result_block part.tool_call_id part.content part.is_error
    else text_block part.text

unfoldable pub part_blocks : List ContentPart → List ContentBlock
unfolding part_block
part_blocks [] = []
part_blocks (p ∷ ps) = part_block p ∷ part_blocks ps

unfoldable pub build_content_blocks : Message → List ContentBlock
unfolding part_blocks
build_content_blocks m = elim m.parts [
  | p ∷ ps ↦ part_blocks (p ∷ ps)
  | [] ↦ elim m.role [
    | Role.tool ↦ tool_result_block m.tool_call_id m.content false ∷ []
    | _ ↦ text_block m.content ∷ []
  ]
]

unfoldable pub build_messages : List Message → List AnthropicMessage
unfolding build_assistant_blocks build_content_blocks
build_messages [] = []
build_messages (m ∷ ms) =
    let rest = build_messages ms in
    elim m.role [
      | Role.system ↦ rest
      | Role.assistant ↦
          record { role = codes "assistant"; content = build_assistant_blocks m } ∷ rest
      | _ ↦ record { role = codes "user"; content = build_content_blocks m } ∷ rest
    ]

unfoldable pub build_tools : List ToolDefinition → List AnthropicTool
build_tools [] = []
build_tools (d ∷ ds) =
    record { name = d.name; description = d.description; input_schema = d.input_schema }
    ∷ build_tools ds

unfoldable pub build_request : ChatRequest → Bool → MessagesRequest
unfolding build_messages build_tools float_is_zero
build_request req stream = record {
  model = if text_eq req.model [] then default_model else req.model;
  max_tokens = if is_positive req.max_tokens then req.max_tokens else default_max_tokens;
  messages = build_messages req.messages;
  system = req.system_prompt;
  temperature = if float_is_zero req.temperature then none else some req.temperature;
  stream = stream;
  tools = build_tools req.tools;
  tool_choice = elim req.tools [ [] ↦ none | d ∷ ds ↦ some (codes "auto") ];
}
