-- ===== src/Control.antt =====
-- src/engine/workflow-engine.ts: the engine's own operations on executions, workflows and the queues.
pub mod Queue
pub mod Halting
pub mod Services
pub mod Enqueue
pub mod Schedules
pub mod Triggers
pub mod Config
