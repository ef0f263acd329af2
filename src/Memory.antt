-- ===== src/Memory.antt =====
-- src/db/inmemory-store.ts: InMemoryExecutionStore. A method that writes returns the new store; the
-- clock and the random part of a new id are arguments, and a method reads the clock once.
-- `executions`, `logs` and `traces` are the three maps of the class; values are copied where the
-- source hands out a reference.
pub mod State
pub mod Cleanup
pub mod Executions
pub mod Observability
pub mod Bounds
