-- ===== src/Events.antt =====
-- src/engine/event-types.ts and src/engine/event-emitter.ts: the payloads that the emitter hands to
-- `job.updateProgress`. The clock is an argument.
pub mod Guards
use spane.Base.{ℕ, String, Option, none, some}
use spane.Base.Int.{ℤ}
use spane.Types.Json.{Value, undefined, num, obj, end, field}

pub data NodeStatus : Type 0 where
  running completed failed skipped delayed : NodeStatus

pub data WorkflowStatus : Type 0 where
  started completed failed paused cancelled : WorkflowStatus

pub data EventType : Type 0 where
  node workflow : EventType

pub record ProgressPayload : Type 0 where
  pub event_type : EventType
  pub execution_id : String
  pub workflow_id : String
  pub timestamp : ℕ
  pub node_id : Option String
  pub node_status : Option NodeStatus
  pub node_data : Value
  pub node_error : Option String
  pub workflow_status : Option WorkflowStatus
  pub workflow_error : Option String

-- `emitNodeProgress`; no caller gives a progress
unfoldable pub node_progress :
    ℕ → String → String → String → NodeStatus → Value → Option String → ProgressPayload
node_progress now node_id workflow_id execution_id status output error = record {
  event_type = EventType.node;
  execution_id = execution_id;
  workflow_id = workflow_id;
  timestamp = now;
  node_id = some node_id;
  node_status = some status;
  node_data = output;
  node_error = error;
  workflow_status = none;
  workflow_error = none;
}

-- `emitWorkflowStatus`
unfoldable pub workflow_progress :
    ℕ → String → String → WorkflowStatus → Option String → ProgressPayload
workflow_progress now workflow_id execution_id status error = record {
  event_type = EventType.workflow;
  execution_id = execution_id;
  workflow_id = workflow_id;
  timestamp = now;
  node_id = none;
  node_status = none;
  node_data = undefined;
  node_error = none;
  workflow_status = some status;
  workflow_error = error;
}

unfoldable pub node_started : ℕ → String → String → String → ProgressPayload
unfolding node_progress
node_started now node_id workflow_id execution_id =
    node_progress now node_id workflow_id execution_id NodeStatus.running undefined none

unfoldable pub node_completed : ℕ → String → String → String → Value → ProgressPayload
unfolding node_progress
node_completed now node_id workflow_id execution_id output =
    node_progress now node_id workflow_id execution_id NodeStatus.completed output none

unfoldable pub node_failed : ℕ → String → String → String → String → ProgressPayload
unfolding node_progress
node_failed now node_id workflow_id execution_id error =
    node_progress now node_id workflow_id execution_id NodeStatus.failed undefined (some error)

unfoldable pub node_skipped : ℕ → String → String → String → ProgressPayload
unfolding node_progress
node_skipped now node_id workflow_id execution_id =
    node_progress now node_id workflow_id execution_id NodeStatus.skipped undefined none

unfoldable pub node_delayed : ℕ → String → String → String → ℤ → ProgressPayload
unfolding node_progress
node_delayed now node_id workflow_id execution_id resume_at =
    node_progress now node_id workflow_id execution_id NodeStatus.delayed
      (obj (field "resumeAt" (num resume_at) end)) none
