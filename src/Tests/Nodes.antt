-- ===== src/Tests/Nodes.antt =====
-- The nodes of a turn at concrete inputs.
use souz_go.Prelude.{
  ◌≡◌, refl, List, [], ◌∷◌, ◌++◌, some, Result, codes, lookup, pos, length, arith,
}
use mathlib.Core.List.{map}
use souz_go.Providers.{Message, ToolCall, Role, text_message}
use souz_go.Agent.Context.{AgentContext, AgentSettings, with_history}
use souz_go.Agent.Executor.{last_assistant_text}
use souz_go.Nodes.Llm.{limited_messages}
use souz_go.Nodes.Llm.Window.{limited_messages_lem}
use souz_go.Nodes.Mcp.{mcp_tool_name}
use souz_go.Nodes.ToolLoop.{execute_tool, tool_loop, last_tool_calls}
use souz_go.Nodes.ToolLoop.Names.{called_on, execute_tool-mcp_tool_name, execute_tool-dotted}
use souz_go.Nodes.ToolLoop.Replies.{answered, asked, tool_loop-answered}
use souz_go.Nodes.Enrich.{build_context_message, enriched_history}
use souz_go.Nodes.Enrich.Context.{enriched-enriched}
use souz_go.Nodes.Summarize.{compacted, summarization_prefix}
use souz_go.Nodes.Summarize.Memory.{last_assistant_text-compacted}
use souz_go.Tests.Bench.{bench, clients, greeting, echo_call, no_meta}

-- A call by the name of the tool `echo` of the server `srv.v2`.
abbrev dotted_call : ToolCall
dotted_call = record { id = codes "c2"; name = codes "srv.v2.echo"; args = codes "{}" }

execute_tool-mcp_tool_name_example :
    execute_tool bench [] clients echo_call no_meta (some tt) (record { answers = []; events = [] })
    ≡ called_on bench
        (some tt)
        (codes "server")
        (codes "echo")
        echo_call
        (record { answers = []; events = [] })
unfolding lookup mcp_tool_name
execute_tool-mcp_tool_name_example =
    execute_tool-mcp_tool_name bench (some tt) [] clients (codes "srv") (codes "echo")
      (codes "server") echo_call no_meta (record { answers = []; events = [] }) (λ e. cc) (λ e. cc)
      (omega arith) refl refl refl

execute_tool-dotted_example :
    execute_tool bench [] clients dotted_call no_meta
      (some tt)
      (record { answers = []; events = [] })
    ≡ called_on bench
        (some tt)
        (codes "server")
        (codes "v2.echo")
        dotted_call
        (record { answers = []; events = [] })
unfolding lookup mcp_tool_name
execute_tool-dotted_example =
    execute_tool-dotted bench (some tt) [] clients (codes "srv") (codes "v2") (codes "echo")
      dotted_call no_meta (record { answers = []; events = [] }) (omega arith) refl refl

abbrev calling : AgentContext (Unit {0})
calling = record greeting {
  history = record (text_message Role.assistant []) { tool_calls = echo_call ∷ [] } ∷ [];
}

tool_loop-answered_example :
    (replies : List Message) × ((tool_loop bench [] clients
        (record { answers = []; events = [] })
        calling).1
      ≡ Result.ok (with_history calling replies))
    × (map answered replies ≡ map asked (last_tool_calls calling.history))
tool_loop-answered_example =
    tool_loop-answered bench [] clients (record { answers = []; events = [] }) calling

abbrev window_of_two : AgentSettings
window_of_two = record { model = []; temperature = 0; max_tokens = pos 0; context_size = pos 2 }

abbrev three_messages : List Message
three_messages =
    text_message Role.user (codes "a")
    ∷ text_message Role.assistant (codes "b")
    ∷ text_message Role.user (codes "c")
    ∷ []

limited_messages_example :
    (older : List Message) × (older ++ limited_messages window_of_two three_messages
      ≡ three_messages)
    × (length (limited_messages window_of_two three_messages) ≡ 2)
limited_messages_example = limited_messages_lem window_of_two three_messages

-- What followed a turn: a call of a tool, its answer, and the assistant's text.
abbrev since : List Message
since =
    record (text_message Role.assistant []) { tool_calls = echo_call ∷ [] }
    ∷ text_message Role.tool (codes "{}")
    ∷ text_message Role.assistant (codes "done")
    ∷ []

enriched-enriched_example :
    enriched_history (codes "b") (codes "t2") no_meta (
      enriched_history
        (codes "my <context> tag")
        (codes "t1")
        no_meta
        (text_message Role.user (codes "old <context>") ∷ [])
      ++ since)
    ≡ since
      ++ (build_context_message (codes "t2") no_meta ∷ text_message Role.user (codes "b") ∷ [])
enriched-enriched_example =
    enriched-enriched (codes "my <context> tag") (codes "b") (codes "t1") (codes "t2") no_meta
      no_meta (text_message Role.user (codes "old <context>") ∷ []) since (λ e. cc) (λ e. cc)

last_assistant_text-compacted_example :
    last_assistant_text (compacted (codes "dump") (text_message Role.assistant [] ∷ []))
    ≡ summarization_prefix ++ (codes "\n\n" ++ codes "dump")
last_assistant_text-compacted_example =
    last_assistant_text-compacted (codes "dump") (text_message Role.assistant [] ∷ [])
      (text_message Role.assistant []) refl
