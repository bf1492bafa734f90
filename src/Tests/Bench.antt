-- ===== src/Tests/Bench.antt =====
-- A platform for the tests: scripted answers of the model, and a record of the events.
use souz_go.Prelude.{List, [], ◌∷◌, ◌++◌, none, some, Text, Error, Result, pos, codes, Dict, Bool}
use souz_go.Providers.{ChatResponse, ToolCall, FinishReason}
use souz_go.Agent.Context.{Event, AgentContext, InvocationMeta, zero_context}
use souz_go.Agent.Platform.{Platform}

pub record World : Type 0 where
  pub answers : List ChatResponse
  pub events : List Event

-- The next answer of the script.
abbrev pub next_answer : World → World × Result Error ChatResponse
next_answer w = elim w.answers [
  | [] ↦ (w, Result.err (Error.other (codes "no answer")))
  | a ∷ rest ↦ (record w { answers = rest }, Result.ok a)
]

abbrev pub bench : Platform
bench = record {
  World = World;
  ctx_err = λ w. none;
  Sink = Unit {0};
  emit = λ s e w. record w { events = w.events ++ e ∷ [] };
  chat = λ req w. next_answer w;
  chat_stream = λ req on_chunk w. next_answer w;
  Client = Text;
  list_tools = λ c w. (
    w,
    Result.ok (record { name = codes "echo"; description = c; input_schema = codes "{}" } ∷ []),
  );
  call_tool = λ c tool args w. (w, Result.ok (args, Bool.false));
  date_time = λ zone w. codes "today";
  unmarshal_object = λ raw. Result.ok ((codes "raw", raw) ∷ []);
  run_script = λ s w. w;
  error_text = λ e. codes "failed";
}

abbrev pub answer : Text → List ToolCall → ChatResponse
answer text calls = record {
  content = text;
  tool_calls = calls;
  usage = record { input_tokens = pos 1; output_tokens = pos 1 };
  finish_reason = FinishReason.stop;
}

abbrev pub echo_call : ToolCall
echo_call = record { id = codes "c1"; name = codes "srv.echo"; args = codes "{}" }

abbrev pub clients : Dict Text
clients = (codes "srv", codes "server") ∷ []

abbrev pub greeting : AgentContext (Unit {0})
greeting = record (zero_context (Unit {0})) { input = codes "hi"; event_sink = some tt }

abbrev pub no_meta : InvocationMeta
no_meta = record {
  user_id = [];
  conversation_id = [];
  request_id = [];
  locale = [];
  time_zone = [];
  active_skill_ids = none;
}
