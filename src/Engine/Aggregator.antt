-- ===== src/Engine/Aggregator.antt =====
-- src/engine/handlers/subworkflow-handler.ts: processAggregatorNode. What `job.getChildrenValues()`
-- answers is an argument.
pub mod Notified
use Prim.Native.String
use spane.Base.{ℕ, String, Bool, true, false, Option, none, some, List, ◌==◌, if◌then◌else◌}
use spane.Base.Dict.{Dict}
use spane.Types.Execution.{ExecutionResult, ExecutionState, Status, error_result}
use spane.NodeUtils.Mapping.{apply_output_mapping}
use spane.NodeUtils.Aggregate.{aggregate_child_results}
use spane.Engine.World.{World, Deps, NodeJobData, store_result, store_status, read_execution}
use spane.Engine.Children.{enqueue_node, no_options}
use spane.Engine.Delay.{data_result}

-- the values of the children, or the error of the call
pub data Answer : Type 0 where
  values : Dict (Option ExecutionResult) → Answer
  failure : String → Answer

-- `value` where it is neither undefined nor ""
abbrev pub non_empty : Option String → Option String
non_empty none = none
non_empty (some s) = if s == "" then none else some s

-- `execution?.workflowId || 'unknown'`
abbrev pub workflow_id_or_unknown : Option ExecutionState → String
workflow_id_or_unknown none = "unknown"
workflow_id_or_unknown (some e) = if e.workflow_id == "" then "unknown" else e.workflow_id

unfoldable pub notify_parent :
    Deps → Option String → Option String → ExecutionResult → World → World
notify_parent deps none parent_node_id r w = w
notify_parent deps (some p) none r w = w
notify_parent deps (some p) (some n) r w =
    let (found, w') = read_execution p w in
    enqueue_node deps p (workflow_id_or_unknown found) n no_options (store_result p n r w')

abbrev pub aggregation_failed : String → ExecutionResult
aggregation_failed message = error_result (String.◌++◌ "Sub-workflow aggregation failed: " message)

-- the result that the aggregator returns and hands to the parent
abbrev pub aggregated : NodeJobData → Answer → ExecutionResult
aggregated job_data (values children) = data_result (
    apply_output_mapping (aggregate_child_results children job_data.execution_id)
      job_data.output_mapping)
aggregated job_data (failure message) = aggregation_failed message

abbrev pub final_status : Answer → Status
final_status (values children) = Status.completed
final_status (failure message) = Status.failed

unfoldable pub process_aggregator_node :
    Deps → NodeJobData → Answer → World → ExecutionResult × World
unfolding notify_parent
process_aggregator_node deps job_data answer w =
    let r = aggregated job_data answer in
    (
      r,
      notify_parent deps (non_empty job_data.parent_execution_id)
          (non_empty job_data.parent_node_id) r
          (store_status job_data.execution_id (final_status answer) w),
    )
