-- ===== src/Nodes.antt =====
-- pkg/agent/nodes: the nodes of the per-turn graph, and the graph itself.
pub mod Common
pub mod Llm
pub mod ToolLoop
pub mod Enrich
pub mod Summarize
pub mod Mcp
pub mod Skills
pub mod Pipeline
