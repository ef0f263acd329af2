-- ===== src/Engine/Aggregator/Notified.antt =====
-- src/engine/handlers/subworkflow-handler.ts: what the aggregator leaves in the store and the queue.
use spane.Base.{
  true, false, String, ◌≡◌, refl, ◌∙◌, ap, Option, none, some, [], ◌∷◌, ◌++◌, ◌==◌, if◌then◌else◌,
}
use spane.Base.Dict.{put}
use spane.Types.Execution.{ExecutionResult, ExecutionState, Status, error_result}
use spane.Memory.Executions.{with_status, update_node_result, set_execution_status, get_execution}
use spane.Memory.Executions.View.{view, update_view, view-modify_execution, view-get_execution}
use spane.Engine.World.{
  World, Deps, NodeJobData, job_added, store_result, store_status, read_execution,
}
use spane.Engine.Children.{enqueue_node, child_job, no_options}
use spane.Engine.Children.Expected.{plain_job, child_job-plain_job}
use spane.NodeUtils.Mapping.{apply_output_mapping}
use spane.NodeUtils.Aggregate.{aggregate_child_results}
use spane.Types.Json.{undefined}
use Prim.Native.String
use spane.Engine.Aggregator.{
  values, failure, Answer, non_empty, workflow_id_or_unknown, notify_parent, aggregated,
  final_status, process_aggregator_node,
}

-- an execution with a result for a node
abbrev pub with_node_result : String → ExecutionResult → ExecutionState → ExecutionState
with_node_result node_id r e = record e { node_results = put e.node_results node_id r }

-- the views once the sub-workflow has its final status
abbrev pub settled_view : World → String → Status → String → Option ExecutionState
settled_view w id status j =
    if id == j then update_view (with_status w.now status) (view w.store id) else view w.store j

view-store_status :
    (w : World) (id : String) (status : Status) (j : String)
    → view (store_status id status w).store j ≡ settled_view w id status j
unfolding set_execution_status
view-store_status w id status j =
    view-modify_execution w.now id (with_status w.now status) w.store j

found-read_execution : (w : World) (id : String) → (read_execution id w).0 ≡ view w.store id
unfolding get_execution view
found-read_execution w id = refl

view-read_execution :
    (w : World) (id j : String) → view (read_execution id w).1.store j ≡ view w.store j
view-read_execution w id j = view-get_execution w.now id w.store j

view-store_result :
    (w : World) (id n : String) (r : ExecutionResult) (j : String)
    → view (store_result id n r w).store j
      ≡ (if id == j then update_view (with_node_result n r) (view w.store id) else view w.store j)
unfolding update_node_result
view-store_result w id n r j = view-modify_execution w.now id (with_node_result n r) w.store j

-- a sub-workflow whose children's values are read has completed, else it has failed
abbrev pub status_after : Answer → Status
status_after (values children) = Status.completed
status_after (failure message) = Status.failed

-- the workflow of an execution, "unknown" where there is none
abbrev pub workflow_of : Option ExecutionState → String
workflow_of none = "unknown"
workflow_of (some e) = if e.workflow_id == "" then "unknown" else e.workflow_id

workflow_of-workflow_id_or_unknown :
    (o : Option ExecutionState) → workflow_id_or_unknown o ≡ workflow_of o
workflow_of-workflow_id_or_unknown none = refl
workflow_of-workflow_id_or_unknown (some e) = refl

-- the data of the children, renamed by the output mapping of the sub-workflow; or the failure
abbrev pub outcome : NodeJobData → Answer → ExecutionResult
outcome job_data (values children) = record {
  success = true;
  output =
      apply_output_mapping (aggregate_child_results children job_data.execution_id)
        job_data.output_mapping;
  error = none;
  next_nodes = none;
  skipped = none;
}
outcome job_data (failure message) = record {
  success = false;
  output = undefined;
  error = some (String.◌++◌ "Sub-workflow aggregation failed: " message);
  next_nodes = none;
  skipped = none;
}

outcome-aggregated :
    (job_data : NodeJobData) (answer : Answer)
    → aggregated job_data answer ≡ outcome job_data answer
unfolding error_result
outcome-aggregated job_data (values children) = refl
outcome-aggregated job_data (failure message) = refl

status_after-final_status : (answer : Answer) → final_status answer ≡ status_after answer
status_after-final_status (values children) = refl
status_after-final_status (failure message) = refl

handed_over :
    (deps : Deps) (job_data : NodeJobData) (answer : Answer) (w : World) (p n : String)
    → non_empty job_data.parent_execution_id ≡ some p
    → non_empty job_data.parent_node_id ≡ some n
    → ((j : String)
        → view (process_aggregator_node deps job_data answer w).1.store j ≡ (
            if p == j
            then update_view
                (with_node_result n (process_aggregator_node deps job_data answer w).0)
                (settled_view w job_data.execution_id (final_status answer) p)
            else settled_view w job_data.execution_id (final_status answer) j))
      × ((process_aggregator_node deps job_data answer w).1.calls
          ≡ w.calls
            ++ job_added (
                child_job deps p
                  (workflow_id_or_unknown
                    (settled_view w job_data.execution_id (final_status answer) p))
                  n
                  no_options)
              ∷ [])
unfolding process_aggregator_node notify_parent enqueue_node
handed_over deps job_data answer w p n hp hn =
    rw (hp, hn, notify_parent)
      (
        λ j.
            view-store_result read p n r j
            ∙ rw
                (
                  view-read_execution settled p j,
                  view-read_execution settled p p,
                  view-store_status w id status j,
                  view-store_status w id status p,
                )
                refl,
        ap
            (λ o.
              w.calls ++ job_added (child_job deps p (workflow_id_or_unknown o) n no_options) ∷ [])
            (found-read_execution settled p ∙ view-store_status w id status p),
      )
  where
    id : String
    id = job_data.execution_id

    status : Status
    status = final_status answer

    r : ExecutionResult
    r = aggregated job_data answer

    settled : World
    settled = store_status id status w

    read : World
    read = (read_execution p settled).1

-- A sub-workflow that was started by a node of a parent execution, both ids not empty, hands its outcome
-- over. Where the children's values are read, its execution is completed, and the outcome is a success
-- with their aggregated data under the output mapping; where they cannot be read, its execution is
-- failed, and the outcome is a failure with the error. The parent's node gets the outcome as its result,
-- no other result of any execution changes, and one job without delay is added, for that node of the
-- parent.
pub process_aggregator_node-parent :
    (deps : Deps) (job_data : NodeJobData) (answer : Answer) (w : World) (p n : String)
    → non_empty job_data.parent_execution_id ≡ some p
    → non_empty job_data.parent_node_id ≡ some n
    → ((process_aggregator_node deps job_data answer w).0 ≡ outcome job_data answer)
      × ((j : String)
          → view (process_aggregator_node deps job_data answer w).1.store j ≡ (
              if p == j
              then update_view
                  (with_node_result n (outcome job_data answer))
                  (settled_view w job_data.execution_id (status_after answer) p)
              else settled_view w job_data.execution_id (status_after answer) j))
      × ((process_aggregator_node deps job_data answer w).1.calls
          ≡ w.calls
            ++ job_added (
                plain_job deps p
                  (workflow_of (settled_view w job_data.execution_id (status_after answer) p))
                  n)
              ∷ [])
unfolding process_aggregator_node
process_aggregator_node-parent deps job_data answer w p n hp hn =
    let (views, calls) = handed_over deps job_data answer w p n hp hn in
    let status = status_after-final_status answer in
    (
      outcome-aggregated job_data answer,
      λ j. views j ∙ (λ i.
          if p == j
          then update_view (with_node_result n (outcome-aggregated job_data answer i))
              (settled_view w job_data.execution_id (status i) p)
          else settled_view w job_data.execution_id (status i) j),
      calls ∙ (λ i.
          let id = workflow_id_or_unknown (settled_view w job_data.execution_id (status i) p) in
          w.calls ++ job_added (child_job-plain_job deps p id n i) ∷ []),
    )
