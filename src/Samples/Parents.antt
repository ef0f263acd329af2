-- ===== src/Samples/Parents.antt =====
-- Samples of sub-workflows that hand their outcome to a parent.
use spane.Base.{String, ◌≡◌, refl, none, some, [], ◌∷◌, ◌++◌, ◌==◌, if◌then◌else◌}
use spane.Types.Json.{str}
use spane.Memory.Executions.View.{view, update_view}
use spane.Engine.World.{NodeJobData, job_added}
use spane.Engine.Children.Expected.{plain_job}
use spane.Engine.Aggregator.{Answer, values, process_aggregator_node}
use spane.Engine.Aggregator.Notified.{
  with_node_result, settled_view, outcome, status_after, workflow_of,
  process_aggregator_node-parent,
}
use spane.Samples.Workflows.{deps, job_data_of, world_with, fetched, done_with}

-- the aggregator of a sub-workflow "child" that node "save" of "exec-1" started
abbrev aggregator : NodeJobData
aggregator = record (job_data_of "__aggregator__" none) {
  execution_id = "child";
  parent_execution_id = some "exec-1";
  parent_node_id = some "save";
}

abbrev answer : Answer
answer = values (("spane:a", some (done_with (str "row"))) ∷ [])

process_aggregator_node-parent_example :
    ((process_aggregator_node deps aggregator answer (world_with fetched)).0
      ≡ outcome aggregator answer)
    × ((j : String)
        → view (process_aggregator_node deps aggregator answer (world_with fetched)).1.store j ≡ (
            if "exec-1" == j
            then update_view
                (with_node_result "save" (outcome aggregator answer))
                (settled_view (world_with fetched) "child" (status_after answer) "exec-1")
            else settled_view (world_with fetched) "child" (status_after answer) j))
    × ((process_aggregator_node deps aggregator answer (world_with fetched)).1.calls
        ≡ (world_with fetched).calls
          ++ job_added (
              plain_job deps "exec-1"
                (workflow_of
                  (settled_view (world_with fetched) "child" (status_after answer) "exec-1"))
                "save")
            ∷ [])
process_aggregator_node-parent_example =
    process_aggregator_node-parent deps aggregator answer (world_with fetched) "exec-1" "save" refl
      refl
