-- ===== src/Agent.antt =====
-- pkg/agent: the context of a turn, the platform that its nodes act on, and the executor.
pub mod Context
pub mod Platform
pub mod Executor
