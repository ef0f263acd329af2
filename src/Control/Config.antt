-- ===== src/Control/Config.antt =====
-- src/engine/config.ts: mergeEngineConfig; src/engine/worker-manager.ts: startWorkers;
-- src/engine/workflow-engine.ts: getJobStatus and getQueueStats.
use spane.Base.{ℕ, ◌+◌, String, Bool, true, false, Option, none, some, ltb, if◌then◌else◌}
use Prim.Native.Nat.{◌/◌}
use spane.Control.Queue.{NodeQueue, JobState}

-- what getJobStatus answers: the state of the job, if the queue has it
unfoldable pub get_job_status : (q : NodeQueue) → String → q.Queue → Option JobState
get_job_status q job_id queue = elim (q.job_of queue job_id) [ none ↦ none | some j ↦ some j.state ]

-- what `getJobCounts` answers to getQueueStats
pub record QueueCounts : Type 0 where
  pub waiting : Option ℕ
  pub active : Option ℕ
  pub completed : Option ℕ
  pub failed : Option ℕ
  pub delayed : Option ℕ
  pub paused : Option ℕ

pub record QueueStats : Type 0 where
  pub waiting : ℕ
  pub active : ℕ
  pub completed : ℕ
  pub failed : ℕ
  pub delayed : ℕ
  pub paused : ℕ

-- `count ?? 0`
abbrev pub count_or_zero : Option ℕ → ℕ
count_or_zero none = 0
count_or_zero (some n) = n

unfoldable pub get_queue_stats : QueueCounts → QueueCounts → QueueStats
get_queue_stats nodes flows = record {
  waiting = count_or_zero nodes.waiting + count_or_zero flows.waiting;
  active = count_or_zero nodes.active + count_or_zero flows.active;
  completed = count_or_zero nodes.completed + count_or_zero flows.completed;
  failed = count_or_zero nodes.failed + count_or_zero flows.failed;
  delayed = count_or_zero nodes.delayed + count_or_zero flows.delayed;
  paused = count_or_zero nodes.paused + count_or_zero flows.paused;
}

pub record RateLimiterConfig : Type 0 where
  pub max : ℕ
  pub duration : ℕ

pub record EngineConfig : Type 0 where
  pub use_flow_producer_for_sub_workflows : Option Bool
  pub use_native_rate_limiting : Option Bool
  pub use_job_schedulers : Option Bool
  pub use_simplified_event_stream : Option Bool
  pub rate_limiter : Option RateLimiterConfig
  pub worker_concurrency : Option ℕ

abbrev pub default_engine_config : EngineConfig
default_engine_config = record {
  use_flow_producer_for_sub_workflows = some false;
  use_native_rate_limiting = some false;
  use_job_schedulers = some true;
  use_simplified_event_stream = some false;
  rate_limiter = none;
  worker_concurrency = some 5;
}

-- `user ?? default`, for a field that the user's configuration leaves out
abbrev pub first_of {ℓ} : {A : Type ℓ} → Option A → Option A → Option A
first_of none b = b
first_of (some a) b = some a

unfoldable pub merge_engine_config : Option EngineConfig → EngineConfig
merge_engine_config none = default_engine_config
merge_engine_config (some user) = record {
  use_flow_producer_for_sub_workflows =
      first_of user.use_flow_producer_for_sub_workflows
        default_engine_config.use_flow_producer_for_sub_workflows;
  use_native_rate_limiting =
      first_of user.use_native_rate_limiting default_engine_config.use_native_rate_limiting;
  use_job_schedulers = first_of user.use_job_schedulers default_engine_config.use_job_schedulers;
  use_simplified_event_stream =
      first_of user.use_simplified_event_stream default_engine_config.use_simplified_event_stream;
  rate_limiter = first_of user.rate_limiter default_engine_config.rate_limiter;
  worker_concurrency = first_of user.worker_concurrency default_engine_config.worker_concurrency;
}

-- the options of the two workers: their concurrency and the limiter of the node worker
pub record WorkerOptions : Type 0 where
  pub node_concurrency : ℕ
  pub limiter : Option RateLimiterConfig
  pub workflow_concurrency : ℕ

abbrev pub number_or : ℕ → Option ℕ → ℕ
number_or d none = d
number_or d (some n) = n

abbrev pub native_limiter : EngineConfig → Option RateLimiterConfig
native_limiter config = elim config.use_native_rate_limiting [
  | some true ↦ config.rate_limiter
  | _ ↦ none
]

-- `Math.max(1, Math.floor(concurrency / 2))`
abbrev pub at_least_one : ℕ → ℕ
at_least_one n = if ltb n 1 then 1 else n

unfoldable pub start_workers : Option ℕ → EngineConfig → WorkerOptions
start_workers concurrency config =
    let n = number_or 5 (first_of concurrency config.worker_concurrency) in
    record {
      node_concurrency = n;
      limiter = native_limiter config;
      workflow_concurrency = at_least_one (n / 2);
    }
