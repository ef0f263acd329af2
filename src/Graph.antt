-- ===== src/Graph.antt =====
-- src/engine/graph-validation.ts
pub mod Edges
pub mod Errors
pub mod Cycle
pub mod Reachable
pub mod References
pub mod Validate
