-- ===== src/Nodes/ToolLoop/Replies.antt =====
-- The tool loop answers every call, once and in order.
use souz_go.Prelude.{◌≡◌, refl, ap, sym, append-nil, List, [], ◌∷◌, Option, Text, Dict, Result}
use mathlib.Core.List.{map}
use souz_go.Providers.{Message, ToolCall, Role}
use souz_go.Tools.{Tool}
use souz_go.Agent.Context.{AgentContext, InvocationMeta, with_history}
use souz_go.Agent.Platform.{Platform}
use souz_go.Nodes.ToolLoop.{execute_tool, execute_calls, tool_loop, last_tool_calls}

-- What a call asks for, and what a reply answers: the role, the call's id and the tool's name.
abbrev pub asked : ToolCall → Role × Text × Text
asked call = (Role.tool, call.id, call.name)

abbrev pub answered : Message → Role × Text × Text
answered m = (m.role, m.tool_call_id, m.name)

module _ (P : Platform) (registry : Dict (Tool P.World)) (clients : Dict P.Client) where
  execute_calls-answered :
      (meta : InvocationMeta) (sink : Option P.Sink) (calls : List ToolCall) (w : P.World)
      → map answered (execute_calls P registry clients meta sink calls w).1 ≡ map asked calls
  unfolding execute_calls
  execute_calls-answered meta sink [] w = refl
  execute_calls-answered meta sink (call ∷ calls) w =
      ap (λ (rest : List (Role × Text × Text)). asked call ∷ rest)
        (execute_calls-answered meta sink calls
          (execute_tool P registry clients call meta sink w).0)

  -- The tool loop never fails, and changes nothing of the context but the history, to which it
  -- appends one reply for each call of the last assistant message, in the order of the calls:
  -- a message of role tool with the id and the name of its call. Unknown tools, bad arguments and
  -- tools that fail are answered too.
  pub tool_loop-answered :
      (w : P.World) (c : AgentContext P.Sink)
      → (replies : List Message) × ((tool_loop P registry clients w c).1
          ≡ Result.ok (with_history c replies))
        × (map answered replies ≡ map asked (last_tool_calls c.history))
  unfolding tool_loop
  tool_loop-answered w c = go (last_tool_calls c.history) refl
    where
      go :
          (calls : List ToolCall)
          → last_tool_calls c.history ≡ calls
          → (replies : List Message) × ((tool_loop P registry clients w c).1
              ≡ Result.ok (with_history c replies))
            × (map answered replies ≡ map asked (last_tool_calls c.history))
      go [] e = (
        [],
        rw (e, tool_loop)
            (ap (λ (h : List Message). Result.ok (record c { history = h }))
              (sym (append-nil c.history))),
        rw e,
      )
      go (call ∷ calls) e = (
        (execute_calls P registry clients c.invocation_meta c.event_sink (call ∷ calls) w).1,
        rw (e, tool_loop),
        rw e (execute_calls-answered c.invocation_meta c.event_sink (call ∷ calls) w),
      )
