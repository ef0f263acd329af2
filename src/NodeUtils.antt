-- ===== src/NodeUtils.antt =====
-- src/engine/node-utils.ts
pub mod Duration
pub mod Retry
pub mod JobId
pub mod Mapping
pub mod Aggregate
