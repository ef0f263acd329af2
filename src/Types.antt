-- ===== src/Types.antt =====
-- src/types.ts: the data that the components share.
pub mod Json
pub mod Workflow
pub mod Execution
