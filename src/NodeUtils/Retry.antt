-- ===== src/NodeUtils/Retry.antt =====
-- src/engine/node-utils.ts: extractRetryConfig, createContinueOnFailResult, isNodeAlreadyProcessed.
use spane.Base.{String, Bool, true, false, Option, none, some, ◌||◌, if◌then◌else◌}
use spane.Base.Int.{ℤ, pos}
use spane.Types.Json.{Value, bool, num, str, obj, end, field, prop, is_truthy}
use spane.Types.Execution.{ExecutionResult}
use spane.NodeUtils.Duration.{as_number}

pub record Backoff : Type 0 where
  pub type : Value
  pub delay : Value

pub record RetryConfig : Type 0 where
  pub attempts : ℤ
  pub backoff : Backoff

abbrev pub default_retry_config : RetryConfig
default_retry_config = record {
  attempts = pos 3;
  backoff = record { type = str "exponential"; delay = num (pos 1000) };
}

abbrev pub attempts_from : Option ℤ → ℤ
attempts_from none = default_retry_config.attempts
attempts_from (some n) = n

abbrev pub backoff_from : Value → Backoff
backoff_from b =
    if is_truthy b
    then record { type = prop b "type"; delay = prop b "delay" }
    else default_retry_config.backoff

unfoldable pub extract_retry_config : Value → RetryConfig
extract_retry_config policy =
    if is_truthy policy
    then record {
      attempts = attempts_from (as_number (prop policy "maxAttempts"));
      backoff = backoff_from (prop policy "backoff");
    }
    else default_retry_config

abbrev pub fail_data : String → Value
fail_data message = obj (
    field "error" (str message) (
      field "_metadata"
        (obj (field "continuedOnFail" (bool true) (field "originalError" (str message) end))) end))

unfoldable pub create_continue_on_fail_result : String → ExecutionResult
create_continue_on_fail_result message = record {
  success = true;
  output = fail_data message;
  error = some message;
  next_nodes = none;
  skipped = none;
}

abbrev pub is_some_true : Option Bool → Bool
is_some_true none = false
is_some_true (some b) = b

unfoldable pub is_node_already_processed : Option ExecutionResult → Bool
is_node_already_processed none = false
is_node_already_processed (some r) = r.success || is_some_true r.skipped
