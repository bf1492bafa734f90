-- ===== src/Tests.antt =====
-- Tests, and the theorems at concrete inputs that meet their hypotheses.
mod Bench
mod Runner
mod Turn
mod Nodes
mod Bus
mod Skills
mod Json
mod Http
mod Providers
mod Tools
mod Bundle
mod Commands
mod Mcp
