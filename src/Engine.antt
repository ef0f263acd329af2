-- ===== src/Engine.antt =====
-- src/engine: the processing of node jobs. A handler is a function from one state of the world to the
-- next; `World` says what the world holds.
pub mod World
pub mod Children
pub mod Completion
pub mod Registry
pub mod Inputs
pub mod Execution
pub mod Delay
pub mod Aggregator
pub mod Flow
pub mod Processor
pub mod Failures
