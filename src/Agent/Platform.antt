-- ===== src/Agent/Platform.antt =====
-- What a turn uses of code that is not in this repository, or that acts on the world outside: the
-- clock, the language model, the transports of the MCP servers, the consumers of events.
use souz_go.Prelude.{Option, none, some, List, Text, Error, Result, Bool}
use souz_go.Providers.{ChatRequest, ChatResponse}
use souz_go.Agent.Context.{Event}

-- mcp.ToolInfo
pub record ToolInfo : Type 0 where
  pub name : Text
  pub description : Text
  pub input_schema : Text

-- Arguments of a tool: map[string]json.RawMessage.
abbrev pub Args : Type 0
Args = List (Text × Text)

pub record Platform : Type 1 where
  -- The state of everything outside, the cancellation of the turn's context included.
  pub World : Type 0
  -- ctx.Err()
  pub ctx_err : World → Option Error
  -- The implementations of EventSink.
  pub Sink : Type 0
  pub emit : Sink → Event → World → World
  -- LLMProvider. ChatStream calls its callback with deltas while it runs.
  pub chat : ChatRequest → World → World × Result Error ChatResponse
  pub chat_stream : ChatRequest → (Text → World → World) → World → World × Result Error ChatResponse
  -- *mcp.Client, its ListTools and its CallTool (the text and whether the server flags an error).
  pub Client : Type 0
  pub list_tools : Client → World → World × Result Error (List ToolInfo)
  pub call_tool : Client → Text → Text → World → World × Result Error (Text × Bool)
  -- The current date and time in a named zone, as time.Format writes it, UTC if the name is not
  -- known.
  pub date_time : Text → World → Text
  -- json.Unmarshal into map[string]json.RawMessage.
  pub unmarshal_object : Text → Result Error Args
  -- Starts an external script, which runs on its own.
  pub run_script : Text → World → World
  -- err.Error()
  pub error_text : Error → Text

-- A nil sink is replaced by NoopEventSink, which does nothing.
abbrev pub emit_to : (P : Platform) → Option P.Sink → Event → P.World → P.World
emit_to P none e w = w
emit_to P (some s) e w = P.emit s e w
