-- ===== src/Routing.antt =====
-- internal/routing/routing.go: the targets and the engine of manual routing rules.
pub mod Address
pub mod Target
pub mod Engine
pub mod Methods
pub mod Invariant
pub mod Matching
pub mod Policy
pub mod Decisions
pub mod Examples
