-- ===== src/Storage/Json.antt =====
-- What encoding/json documents of a ChatState that is written and read back: every field comes back,
-- strings as valid UTF-8, and the arguments of the tool calls, which are raw JSON, in the layout of
-- the indented file, with `null` for none.
use mathlib.Core.List.{map}
use souz_go.Prelude.{◌≡◌, Text, Result, codes, text_eq, if◌then◌else◌}
use souz_go.Providers.{ContentPart, Message, Role, system, user, assistant, tool, unknown, ToolCall}
use souz_go.Storage.{ChatMessage, ChatState, Codec}

-- Strings as encoding/json coerces them, and raw JSON as MarshalIndent lays it out in a tool call.
pub record Layout : Type 0 where
  pub to_utf8 : Text → Text
  pub indent_raw : Text → Text

-- A role is written as its string.
abbrev pub role_name : Role → Text
role_name system = codes "system"
role_name user = codes "user"
role_name assistant = codes "assistant"
role_name tool = codes "tool"
role_name (unknown r) = r

abbrev pub role_named : Text → Role
role_named r =
    if text_eq r (codes "system")
    then system
    else if text_eq r (codes "user")
    then user
    else if text_eq r (codes "assistant")
    then assistant
    else if text_eq r (codes "tool")
    then tool
    else unknown r

module _ (L : Layout) where
  abbrev pub role_through : Role → Role
  role_through r = role_named (L.to_utf8 (role_name r))

  abbrev pub part_through : ContentPart → ContentPart
  part_through p = record {
    type = L.to_utf8 p.type;
    text = L.to_utf8 p.text;
    tool_call_id = L.to_utf8 p.tool_call_id;
    content = L.to_utf8 p.content;
    is_error = p.is_error;
  }

  abbrev pub call_through : ToolCall → ToolCall
  call_through c = record {
    id = L.to_utf8 c.id;
    name = L.to_utf8 c.name;
    args = L.indent_raw c.args;
  }

  abbrev pub message_through : Message → Message
  message_through m = record {
    role = role_through m.role;
    content = L.to_utf8 m.content;
    parts = map part_through m.parts;
    tool_call_id = L.to_utf8 m.tool_call_id;
    name = L.to_utf8 m.name;
    tool_calls = map call_through m.tool_calls;
  }

  abbrev pub chat_message_through : ChatMessage → ChatMessage
  chat_message_through m = record {
    id = L.to_utf8 m.id;
    role = L.to_utf8 m.role;
    content = L.to_utf8 m.content;
    created_at = m.created_at;
  }

  -- The state that comes back.
  unfoldable pub through_json : ChatState → ChatState
  through_json cs = record {
    chat_id = L.to_utf8 cs.chat_id;
    title = L.to_utf8 cs.title;
    archived = cs.archived;
    created_at = cs.created_at;
    updated_at = cs.updated_at;
    history = map message_through cs.history;
    messages = map chat_message_through cs.messages;
  }

  -- What is encoded without an error decodes to it.
  abbrev pub IsJson : Codec → Type 0
  IsJson J =
      (cs : ChatState) (raw : Text)
      → J.marshal cs ≡ Result.ok raw
      → J.unmarshal raw ≡ Result.ok (through_json cs)
