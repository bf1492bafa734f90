-- ===== src/Nodes/Common.antt =====
-- What every node of pkg/agent/nodes has in common: a function on AgentContext, made into a node.
use souz_go.Prelude.{ℕ, Text, Error, Result}
use souz_go.Graph.Defs.{Node, new_node}
use souz_go.Agent.Context.{AgentContext, zero_context}
use souz_go.Agent.Executor.{Value, agent_context, as_context}
use souz_go.Agent.Platform.{Platform}

-- func(ctx context.Context, in agent.AgentContext) (agent.AgentContext, error)
abbrev pub NodeFn : Platform → Type 0
NodeFn P = P.World → AgentContext P.Sink → P.World × Result Error (AgentContext P.Sink)

unfoldable pub agent_node : (P : Platform) → ℕ → Text → NodeFn P → Node P.World (Value P.Sink)
unfolding new_node
agent_node P ptr name fn = new_node ptr name as_context (zero_context P.Sink) agent_context fn
