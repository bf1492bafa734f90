-- ===== src/Graph.antt =====
-- pkg/graph: nodes, the graph definition and the runner that drains the work queue.
pub mod Defs
pub mod Runner
pub mod Bounds
pub mod Retry
pub mod Cost
