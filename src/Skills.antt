-- ===== src/Skills.antt =====
-- pkg/skills: bundles, their validation and the cache of verdicts, and the selection for a turn.
pub mod Json
pub mod Bundle
pub mod Registry
pub mod Services
pub mod Selection
pub mod Validation
pub mod Store
