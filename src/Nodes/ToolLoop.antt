-- ===== src/Nodes/ToolLoop.antt =====
-- pkg/agent/nodes/toolloop.go
pub mod Names
pub mod Replies
use souz_go.Prelude.{
  suc, ◌==◌, ◌||◌, Bool, true, false, List, [], ◌∷◌, ◌++◌, Option, none, some, Text, Error, Result,
  Dict, lookup, codes, leb, length, take, drop, index_byte, if◌then◌else◌,
}
use souz_go.Providers.{Message, ToolCall, Role, is_assistant, text_message}
use souz_go.Tools.{Tool}
use souz_go.Agent.Context.{InvocationMeta, Event, with_history}
use souz_go.Agent.Executor.{last_match}
use souz_go.Agent.Platform.{Platform, Args, emit_to}
use souz_go.Nodes.Common.{NodeFn}

unfoldable pub last_tool_calls : List Message → List ToolCall
unfolding last_match
last_tool_calls history = elim (last_match (λ m. is_assistant m.role) history) [
  | some m ↦ m.tool_calls
  | none ↦ []
]

-- idx <= 0 || idx == len(name)-1, at the index of the first '.'
unfoldable pub split_mcp_tool_name : Text → Option (Text × Text)
split_mcp_tool_name name = elim (index_byte name b'.') [
  | none ↦ none
  | some idx ↦
      if leb idx 0 || suc idx == length name
      then none
      else some (take idx name, drop (suc idx) name)
]

module _ (P : Platform) where
  open P use {World, Sink, Client}

  unfoldable pub parse_tool_args : Text → Result Error Args
  parse_tool_args [] = Result.ok []
  parse_tool_args (c ∷ raw) = P.unmarshal_object (c ∷ raw)

  -- A tool's text goes to the sink and to the model, flagged as an error to the sink only.
  unfoldable pub tool_reply : ToolCall → Option Sink → Text → Bool → World → World × Text
  tool_reply call sink text is_error w =
      (emit_to P sink (Event.tool_result call.name text is_error) w, text)

  unfoldable pub execute_local_tool :
      Tool World → ToolCall → InvocationMeta → Option Sink → World → World × Text
  unfolding parse_tool_args tool_reply
  execute_local_tool tool call meta sink w = elim (parse_tool_args call.args) [
    | Result.err e ↦ tool_reply call sink (codes "invalid arguments: " ++ P.error_text e) true w
    | Result.ok args ↦
        let (w', r) = tool.execute args meta w in
        elim r [
          | Result.err e ↦ tool_reply call sink (P.error_text e) true w'
          | Result.ok result ↦ tool_reply call sink result false w'
        ]
  ]

  unfoldable pub execute_mcp_tool : Client → Text → ToolCall → Option Sink → World → World × Text
  unfolding tool_reply
  execute_mcp_tool client tool_name call sink w =
      let (w', r) = P.call_tool client tool_name call.args w in
      elim r [
        | Result.err e ↦ tool_reply call sink (P.error_text e) true w'
        | Result.ok (text, is_error) ↦ tool_reply call sink text is_error w'
      ]

  unfoldable pub no_such_tool : ToolCall → Option Sink → World → World × Text
  unfolding tool_reply
  no_such_tool call sink w = tool_reply call sink (codes "no such tool: " ++ call.name) true w

  -- The client of the call's server, with the name of the tool there.
  unfoldable pub mcp_target : Dict Client → Text → Option (Client × Text)
  unfolding split_mcp_tool_name
  mcp_target clients name = elim (split_mcp_tool_name name) [
    | none ↦ none
    | some (server, tool) ↦ elim (lookup server clients) [ none ↦ none | some c ↦ some (c, tool) ]
  ]

  unfoldable pub execute_tool :
      Dict (Tool World)
      → Dict Client
      → ToolCall
      → InvocationMeta
      → Option Sink
      → World
      → World × Text
  unfolding execute_local_tool execute_mcp_tool no_such_tool mcp_target
  execute_tool registry clients call meta sink w =
      let w' = emit_to P sink (Event.tool_call call.name call.args) w in
      elim (lookup call.name registry) [
        | some tool ↦ execute_local_tool tool call meta sink w'
        | none ↦ elim (mcp_target clients call.name) [
          | some (client, tool_name) ↦ execute_mcp_tool client tool_name call sink w'
          | none ↦ no_such_tool call sink w'
        ]
      ]

  unfoldable pub tool_message : ToolCall → Text → Message
  tool_message call content = record (text_message Role.tool content) {
    tool_call_id = call.id;
    name = call.name;
  }

  -- The loop over the calls.
  unfoldable pub execute_calls :
      Dict (Tool World)
      → Dict Client
      → InvocationMeta
      → Option Sink
      → List ToolCall
      → World
      → World × List Message
  unfolding execute_tool tool_message
  execute_calls registry clients meta sink [] w = (w, [])
  execute_calls registry clients meta sink (call ∷ calls) w =
      let (w', content) = execute_tool registry clients call meta sink w in
      let (w'', rest) = execute_calls registry clients meta sink calls w' in
      (w'', tool_message call content ∷ rest)

  unfoldable pub tool_loop : Dict (Tool World) → Dict Client → NodeFn P
  unfolding last_tool_calls execute_calls
  tool_loop registry clients w c = elim (last_tool_calls c.history) [
    | [] ↦ (w, Result.ok c)
    | call ∷ calls ↦
        let (w', results) =
          execute_calls registry clients c.invocation_meta c.event_sink (call ∷ calls) w in
        (w', Result.ok (with_history c results))
  ]
