-- ===== src/Samples.antt =====
-- The theorems at concrete workflows, stores and jobs.
pub mod Workflows
pub mod Queue
pub mod Services
mod Control
mod Requests
mod Schedules
mod Locks
mod Reports
mod Flows
mod Graphs
mod Stores
mod Utils
mod Jobs
mod Parents
mod Routing
