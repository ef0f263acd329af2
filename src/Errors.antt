-- ===== src/Errors.antt =====
-- src/engine/errors.ts: the error codes and classes, and what an error's code decides. An error is a
-- WorkflowError with its code, or any other error.
use Prim.Native.String
use spane.Base.{ℕ, String, ◌≡◌, refl, inl, inr, Bool, true, false, leb, Bool-cases, if◌then◌else◌}

pub data WorkflowErrorCode : Type 0 where
  workflow_not_found workflow_validation_failed workflow_cycle_detected
        workflow_entry_node_missing :
      WorkflowErrorCode
  node_not_found node_not_registered node_execution_failed node_skipped node_timeout :
      WorkflowErrorCode
  execution_not_found execution_timeout execution_cancelled execution_paused
        execution_max_depth_exceeded :
      WorkflowErrorCode
  invalid_config invalid_priority invalid_delay : WorkflowErrorCode
  state_corruption state_persistence_failed : WorkflowErrorCode
  queue_error worker_error : WorkflowErrorCode
  subworkflow_failed subworkflow_not_found : WorkflowErrorCode
  rate_limit_exceeded circuit_breaker_open unknown_error : WorkflowErrorCode

pub data Failure : Type 0 where
  workflow_error : (code : WorkflowErrorCode) → (message : String) → Failure
  other_error : (message : String) → Failure

abbrev pub workflow_not_found_error : String → Failure
workflow_not_found_error workflow_id =
    workflow_error WorkflowErrorCode.workflow_not_found
      (String.◌++◌ "Workflow '" (String.◌++◌ workflow_id "' not found"))

abbrev pub workflow_validation_error : String → String → Failure
workflow_validation_error workflow_id message =
    workflow_error WorkflowErrorCode.workflow_validation_failed (
      String.◌++◌ "Workflow '"
        (String.◌++◌ workflow_id (String.◌++◌ "' validation failed: " message)))

abbrev node_execution_error : String → String → Failure
node_execution_error node_id message =
    workflow_error WorkflowErrorCode.node_execution_failed
      (String.◌++◌ "Node '" (String.◌++◌ node_id (String.◌++◌ "' execution failed: " message)))

-- `decimal` prints a number
abbrev pub max_depth_exceeded_error : (ℕ → String) → ℕ → ℕ → Failure
max_depth_exceeded_error decimal current_depth max_depth =
    workflow_error WorkflowErrorCode.execution_max_depth_exceeded (
      String.◌++◌ "Maximum sub-workflow depth (" (
        String.◌++◌ (decimal max_depth)
          (String.◌++◌ ") exceeded (current: " (String.◌++◌ (decimal current_depth) ")"))))

abbrev node_not_registered_error : String → Failure
node_not_registered_error node_type =
    workflow_error WorkflowErrorCode.node_not_registered
      (String.◌++◌ "Node type '" (String.◌++◌ node_type "' is not registered"))

unfoldable pub is_workflow_error : Failure → Bool
is_workflow_error (workflow_error code message) = true
is_workflow_error (other_error message) = false

abbrev pub is_retryable_code : WorkflowErrorCode → Bool
is_retryable_code WorkflowErrorCode.rate_limit_exceeded = true
is_retryable_code WorkflowErrorCode.circuit_breaker_open = true
is_retryable_code WorkflowErrorCode.node_timeout = true
is_retryable_code WorkflowErrorCode.queue_error = true
is_retryable_code WorkflowErrorCode.worker_error = true
is_retryable_code _ = false

unfoldable pub is_retryable_error : Failure → Bool
is_retryable_error (workflow_error code message) = is_retryable_code code
is_retryable_error (other_error message) = false

abbrev pub is_fatal_code : WorkflowErrorCode → Bool
is_fatal_code WorkflowErrorCode.workflow_validation_failed = true
is_fatal_code WorkflowErrorCode.workflow_cycle_detected = true
is_fatal_code WorkflowErrorCode.node_not_registered = true
is_fatal_code WorkflowErrorCode.invalid_config = true
is_fatal_code WorkflowErrorCode.state_corruption = true
is_fatal_code _ = false

abbrev pub is_fatal : Failure → Bool
is_fatal (workflow_error code message) = is_fatal_code code
is_fatal (other_error message) = false

unfoldable pub should_move_to_dlq : Failure → ℕ → ℕ → Bool
should_move_to_dlq error attempts_made max_attempts =
    if leb max_attempts attempts_made then true else is_fatal error

abbrev pub message_for : WorkflowErrorCode → String → String
message_for WorkflowErrorCode.workflow_not_found m = "The specified workflow could not be found."
message_for WorkflowErrorCode.workflow_validation_failed m = "The workflow definition is invalid."
message_for WorkflowErrorCode.execution_timeout m =
    "The workflow execution took too long and timed out."
message_for WorkflowErrorCode.execution_cancelled m = "The workflow execution was cancelled."
message_for WorkflowErrorCode.rate_limit_exceeded m = "Too many requests. Please try again later."
message_for WorkflowErrorCode.circuit_breaker_open m =
    "The service is temporarily unavailable. Please try again later."
message_for _ m = m

unfoldable pub get_user_message : Failure → String
get_user_message (workflow_error code message) = message_for code message
get_user_message (other_error message) = "An unexpected error occurred."

retryable_not_fatal : (c : WorkflowErrorCode) → is_retryable_code c ≡ true → is_fatal_code c ≡ false
retryable_not_fatal WorkflowErrorCode.rate_limit_exceeded h = refl
retryable_not_fatal WorkflowErrorCode.circuit_breaker_open h = refl
retryable_not_fatal WorkflowErrorCode.node_timeout h = refl
retryable_not_fatal WorkflowErrorCode.queue_error h = refl
retryable_not_fatal WorkflowErrorCode.worker_error h = refl
retryable_not_fatal _ h = cc

-- A retryable error, whatever its message, is moved to the dead letter queue exactly when its attempts are
-- used up.
pub should_move_to_dlq-retryable :
    (error : Failure) (attempts_made max_attempts : ℕ)
    → is_retryable_error error ≡ true
    → should_move_to_dlq error attempts_made max_attempts ≡ leb max_attempts attempts_made
unfolding is_retryable_error should_move_to_dlq
should_move_to_dlq-retryable (workflow_error code message) made max h =
    elim (Bool-cases (leb max made)) [
      | inl l ↦ rw l refl
      | inr l ↦ rw l (retryable_not_fatal code h)
    ]
should_move_to_dlq-retryable (other_error message) made max h = cc
