-- ===== src/Engine/World.antt =====
-- What the handlers read and write: the state store, and the calls of BullMQ, Redis and the event
-- emitter in the order in which they are made. BullMQ and Redis are not part of the repository: a
-- handler's calls of them are recorded, and what they answer is an argument (`Deps`).
use spane.Base.{ℕ, String, Bool, Option, none, some, List, [], ◌∷◌, ◌++◌}
use spane.Base.Int.{ℤ}
use spane.Base.Dict.{Dict}
use spane.Types.Json.{Value}
use spane.Types.Workflow.{WorkflowDefinition}
use spane.Types.Execution.{ExecutionResult, ExecutionState, Status}
use spane.Memory.State.{Store}
use spane.Memory.Executions.{
  update_node_result, get_execution, get_node_results, get_pending_node_count, set_execution_status,
}
use spane.NodeUtils.JobId.{DelayStep}
use spane.NodeUtils.Retry.{RetryConfig}
use spane.Events.{ProgressPayload}

-- src/engine/types.ts: NodeJobData
pub record NodeJobData : Type 0 where
  pub execution_id : String
  pub workflow_id : String
  pub node_id : String
  pub input_data : Value
  pub delay_step : Option DelayStep
  pub delay_start_time : Option ℕ
  pub is_sub_workflow_aggregator : Bool
  pub parent_execution_id : Option String
  pub parent_node_id : Option String
  pub output_mapping : Option (Dict String)

-- the arguments of `nodeQueue.add`
pub record AddedJob : Type 0 where
  pub name : String
  pub payload : NodeJobData
  pub job_id : String
  pub delay : Option ℤ
  pub retry : RetryConfig

-- a job of a BullMQ flow, with the jobs that run before it
mutual
  pub data FlowJob : Type 0 where
    flow_job :
        (name : String) (payload : NodeJobData) (job_id : String)
        (fail_parent ignore_failure : Option Bool) (children : FlowJobs)
        → FlowJob

  pub data FlowJobs : Type 0 where
    no_jobs : FlowJobs
    add_job : FlowJob → FlowJobs → FlowJobs

pub data Call : Type 0 where
  job_added : AddedJob → Call
  progress : ProgressPayload → Call
  acquired : String → Call
  released : (key token : String) → Call
  job_delayed : ℕ → Call
  flow_added : FlowJob → Call

pub record World : Type 0 where
  pub store : Store
  pub calls : List Call
  pub now : ℕ

-- what a job says of itself
pub record Job : Type 0 where
  pub attempts : Option ℕ
  pub attempts_made : ℕ

-- What the handlers are given: the lookup of workflows (`getWorkflowWithLazyLoad`), and the token
-- that `distributedLock.acquire` answers for a key, if it gets the lock.
pub record Deps : Type 0 where
  pub workflow_of : String → Option WorkflowDefinition
  pub lock_token : String → Option String

abbrev pub record_call : Call → World → World
record_call c w = record w { calls = w.calls ++ c ∷ [] }

abbrev pub emit : ProgressPayload → World → World
emit p w = record_call (progress p) w

-- `if (job) { await emit(…) }`
abbrev pub emit_if : Option Job → ProgressPayload → World → World
emit_if none p w = w
emit_if (some job) p w = emit p w

abbrev pub store_result : String → String → ExecutionResult → World → World
store_result id node_id r w = record w { store = update_node_result w.now id node_id r w.store }

abbrev pub store_status : String → Status → World → World
store_status id status w = record w { store = set_execution_status w.now id status w.store }

abbrev pub read_execution : String → World → Option ExecutionState × World
read_execution id w =
    let (found, s) = get_execution w.now id w.store in (found, record w { store = s })

abbrev pub read_results : String → List String → World → Dict ExecutionResult × World
read_results id node_ids w =
    let (found, s) = get_node_results w.now id node_ids w.store in (found, record w { store = s })

abbrev pub read_pending : String → ℕ → World → ℤ × World
read_pending id total w =
    let (n, s) = get_pending_node_count w.now id total w.store in (n, record w { store = s })
