-- ===== src/Types/Execution.antt =====
-- src/types.ts: the results of nodes and the state of an execution.
use spane.Base.{ℕ, String, Bool, true, false, Option, none, some, List}
use spane.Base.Dict.{Dict}
use spane.Types.Json.{Value, undefined, Fields}

-- `output` is the source's `data`, `undefined` where the source leaves it out
pub record ExecutionResult : Type 0 where
  pub success : Bool
  pub output : Value
  pub error : Option String
  pub next_nodes : Option (List String)
  pub skipped : Option Bool

unfoldable pub success_result : Value → Option (List String) → ExecutionResult
success_result output next_nodes = record {
  success = true;
  output = output;
  error = none;
  next_nodes = next_nodes;
  skipped = some false;
}

unfoldable pub error_result : String → ExecutionResult
error_result error = record {
  success = false;
  output = undefined;
  error = some error;
  next_nodes = none;
  skipped = none;
}

unfoldable pub skipped_result : Value → ExecutionResult
skipped_result output = record {
  success = true;
  output = output;
  error = none;
  next_nodes = none;
  skipped = some true;
}

pub data Status : Type 0 where
  running completed failed cancelled paused : Status

-- Times are milliseconds since the epoch.
pub record ExecutionState : Type 0 where
  pub execution_id : String
  pub workflow_id : String
  pub status : Status
  pub node_results : Dict ExecutionResult
  pub started_at : ℕ
  pub completed_at : Option ℕ
  pub parent_execution_id : Option String
  pub depth : ℕ
  pub initial_data : Value
  pub metadata : Option Fields

pub data Level : Type 0 where
  info warn error debug : Level

pub record ExecutionLog : Type 0 where
  pub id : String
  pub execution_id : String
  pub node_id : Option String
  pub level : Level
  pub message : String
  pub timestamp : ℕ
  pub metadata : Value

pub data SpanStatus : Type 0 where
  running completed failed skipped : SpanStatus

pub record ExecutionSpan : Type 0 where
  pub id : String
  pub node_id : String
  pub name : String
  pub start_time : ℕ
  pub end_time : Option ℕ
  pub status : SpanStatus
  pub error : Option String
  pub metadata : Value

pub record ExecutionTrace : Type 0 where
  pub execution_id : String
  pub workflow_id : String
  pub spans : List ExecutionSpan
