-- ===== src/Engine/Failures.antt =====
-- src/engine/worker-manager.ts: the 'failed' and 'completed' listeners of the node worker;
-- src/engine/dlq-manager.ts: DLQManager; src/engine/queue-manager.ts: the listener that caches results.
-- The dead letter queue is a queue of BullMQ: the items that are added to it are recorded, and the job
-- that it answers for an id is an argument. The store is the one in memory, which has no
-- `handlePermanentFailure`.
pub mod Exhausted
pub mod Cached
use Prim.Native.String
use spane.Base.{
  ℕ, ◌+◌, String, Bool, true, false, not, Option, none, some, List, [], ◌∷◌, ◌++◌, map, leb, eqb,
  if◌then◌else◌,
}
use spane.Types.Json.{Value, bool, prop}
use spane.Types.Execution.{ExecutionResult, error_result}
use spane.Memory.Executions.{cache_node_result}
use spane.NodeUtils.Retry.{default_retry_config}
use spane.Engine.World.{World, Job, NodeJobData, store_result}
use spane.Engine.Completion.{handle_workflow_error}
use spane.Metrics.{
  MetricsData, increment_nodes_failed, increment_dlq_items, increment_nodes_executed,
}
use spane.Control.Queue.{NodeQueue, JobOptions}

-- src/engine/types.ts: DLQItem
pub record DlqItem : Type 0 where
  pub job_id : String
  pub payload : NodeJobData
  pub failed_reason : String
  pub timestamp : ℕ
  pub stacktrace : List String

-- the job that a listener is given
pub record FailedJob : Type 0 where
  pub id : String
  pub payload : NodeJobData
  pub attempts : Option ℕ
  pub attempts_made : ℕ
  pub stacktrace : List String

-- BullMQ's DelayedError and RateLimitError, and any other error
pub data JobError : Type 0 where
  delayed_error rate_limit_error : JobError
  failed_with : (message : String) → JobError

-- what the listener works on: the world, the items added to the dead letter queue, the metrics
pub record Failing : Type 0 where
  pub world : World
  pub dlq : List DlqItem
  pub metrics : Option MetricsData

unfoldable pub move_to_dlq : FailedJob → String → Failing → Failing
move_to_dlq job message st = record st {
  dlq =
      st.dlq
      ++ record {
        job_id = job.id;
        payload = job.payload;
        failed_reason = message;
        timestamp = st.world.now;
        stacktrace = job.stacktrace;
      }
        ∷ [];
}

-- `job.opts.attempts || 1`
abbrev pub allowed : Option ℕ → ℕ
allowed none = 1
allowed (some n) = if eqb n 0 then 1 else n

abbrev pub count_failure : Option MetricsData → Option MetricsData
count_failure none = none
count_failure (some m) = some (increment_dlq_items (increment_nodes_failed m))

abbrev pub as_job : FailedJob → Job
as_job job = record { attempts = job.attempts; attempts_made = job.attempts_made }

-- the job has used up its attempts
unfoldable pub fail_permanently : FailedJob → String → Failing → Failing
unfolding move_to_dlq
fail_permanently job message st =
    let data_of = job.payload in
    let moved = move_to_dlq job message st in
    let stored =
      store_result data_of.execution_id data_of.node_id (error_result message) moved.world in
    record moved {
      metrics = count_failure st.metrics;
      world =
          handle_workflow_error data_of.execution_id data_of.workflow_id (some (as_job job)) message
            stored;
    }

unfoldable pub on_node_failed : Option FailedJob → JobError → Failing → Failing
unfolding fail_permanently
on_node_failed job delayed_error st = st
on_node_failed job rate_limit_error st = st
on_node_failed none (failed_with message) st = st
on_node_failed (some job) (failed_with message) st =
    if leb (allowed job.attempts) job.attempts_made then fail_permanently job message st else st

-- the worker's 'completed' listener
unfoldable pub on_node_completed : Failing → Failing
on_node_completed st = record st {
  metrics = elim st.metrics [ none ↦ none | some m ↦ some (increment_nodes_executed m) ];
}

abbrev pub is_bool_true : Value → Bool
is_bool_true (bool b) = b
is_bool_true _ = false

-- `result?.data?.delayed === true`
unfoldable pub is_delayed_result : ExecutionResult → Bool
is_delayed_result result = is_bool_true (prop result.output "delayed")

-- the listener that caches the result of a completed job, if the queue still has the job
unfoldable pub cache_completed : Option NodeJobData → ExecutionResult → World → World
unfolding is_delayed_result
cache_completed none result w = w
cache_completed (some payload) result w = if is_delayed_result result then w else record w {
  store = cache_node_result w.now payload.execution_id payload.node_id result w.store;
}

-- getDLQItems, with the jobs that the queue answers
unfoldable pub get_dlq_items : {A : Type 0} → (A → DlqItem) → List A → List DlqItem
get_dlq_items item_of jobs = map item_of jobs

module _ (node_queue : NodeQueue) (decimal : ℕ → String) where
  open node_queue use {Queue, add}

  abbrev pub retry_options : ℕ → NodeJobData → JobOptions
  retry_options now payload = record {
    job_id =
        String.◌++◌ payload.execution_id
          (String.◌++◌ "-" (String.◌++◌ payload.node_id (String.◌++◌ "-retry-" (decimal now))));
    retry = default_retry_config;
    priority = none;
    delay = none;
    parent = none;
  }

  -- the answer, the ids of the jobs removed from the dead letter queue, and the node queue
  unfoldable pub retry_dlq_item : ℕ → String → Option DlqItem → Queue → Bool × List String × Queue
  retry_dlq_item now dlq_job_id none q = (false, [], q)
  retry_dlq_item now dlq_job_id (some item) q =
      (true, dlq_job_id ∷ [], add "process-node" item.payload (retry_options now item.payload) q)
