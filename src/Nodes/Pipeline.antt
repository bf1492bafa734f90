-- ===== src/Nodes/Pipeline.antt =====
-- pkg/agent/nodes/graph.go: the graph of a turn. The node "skills" is an argument of the graph.
pub mod Turn
mod Drain
pub mod Refinement
pub mod Steps
pub mod Limit
use souz_go.Prelude.{
  Bool, false, not, ◌&&◌, ltb, length, none, some, List, [], ◌∷◌, Option, Dict, codes, get_last?,
}
use souz_go.Providers.{Message, ToolCall, is_assistant}
use souz_go.Graph.Defs.{Node, Definition, new_definition, add_edge, add_conditional_edge}
use souz_go.Tools.{Tool}
use souz_go.Agent.Executor.{Value, agent_context, foreign}
use souz_go.Agent.Platform.{Platform}
use souz_go.Nodes.Common.{NodeFn, agent_node}
use souz_go.Nodes.Llm.{llm}
use souz_go.Nodes.ToolLoop.{tool_loop}
use souz_go.Nodes.Enrich.{enrich}
use souz_go.Nodes.Summarize.{summarize}
use souz_go.Nodes.Mcp.{mcp, classify}

unfoldable pub asks_for_tools : Message → Bool
asks_for_tools m = is_assistant m.role && ltb 0 (length m.tool_calls)

unfoldable pub has_pending_tool_calls : {Sink : Type 0} → Value Sink → Bool
unfolding asks_for_tools
has_pending_tool_calls foreign = false
has_pending_tool_calls (agent_context c) = elim (get_last? c.history) [
  | none ↦ false
  | some last ↦ asks_for_tools last
]

unfoldable pub negate : {V : Type 0} → (V → Bool) → V → Bool
negate cond out = not (cond out)

module _ (P : Platform) (registry : Dict (Tool P.World)) (clients : Dict P.Client)
    (skills : NodeFn P) where
  -- The seven pointers that BuildGraph allocates.
  abbrev pub TurnNode : Type 0
  TurnNode = Node P.World (Value P.Sink)

  unfoldable pub classify_node : TurnNode
  unfolding agent_node
  classify_node = agent_node P 0 (codes "classify") (classify P registry)

  unfoldable pub mcp_node : TurnNode
  unfolding agent_node
  mcp_node = agent_node P 1 (codes "mcp") (mcp P clients)

  unfoldable pub skills_node : TurnNode
  unfolding agent_node
  skills_node = agent_node P 2 (codes "skills") skills

  unfoldable pub enrich_node : TurnNode
  unfolding agent_node
  enrich_node = agent_node P 3 (codes "enrich") (enrich P)

  unfoldable pub llm_node : TurnNode
  unfolding agent_node
  llm_node = agent_node P 4 (codes "llm") (llm P)

  unfoldable pub tool_loop_node : TurnNode
  unfolding agent_node
  tool_loop_node = agent_node P 5 (codes "toolloop") (tool_loop P registry clients)

  unfoldable pub summarize_node : TurnNode
  unfolding agent_node
  summarize_node = agent_node P 6 (codes "summarize") (summarize P)

  -- The definition that BuildGraph returns, whose start is `classify_node`.
  unfoldable pub build_graph : Definition P.World (Value P.Sink)
  unfolding new_definition add_edge add_conditional_edge classify_node mcp_node skills_node
      enrich_node llm_node tool_loop_node summarize_node has_pending_tool_calls negate
  build_graph =
      let d0 : Definition P.World (Value P.Sink) = new_definition in
      let d1 = add_edge d0 classify_node mcp_node in
      let d2 = add_edge d1 mcp_node skills_node in
      let d3 = add_edge d2 skills_node enrich_node in
      let d4 = add_edge d3 enrich_node llm_node in
      let d5 = add_conditional_edge d4 llm_node has_pending_tool_calls tool_loop_node in
      let d6 = add_conditional_edge d5 llm_node (negate has_pending_tool_calls) summarize_node in
      add_edge d6 tool_loop_node llm_node
