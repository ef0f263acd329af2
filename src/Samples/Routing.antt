-- ===== src/Samples/Routing.antt =====
-- Samples of the checks before a node is handled.
use spane.Base.{refl, false, none, [], ◌∷◌}
use spane.Base.Dict.{get}
use spane.Types.Json.{str}
use spane.Types.Workflow.{find_node}
use spane.Types.Execution.{ExecutionState, Status}
use spane.Memory.Executions.View.{view}
use spane.Engine.World.{job_delayed}
use spane.Engine.Registry.{returned}
use spane.Engine.Aggregator.{failure}
use spane.Engine.Flow.{added_as}
use spane.Engine.Processor.{Setup, finished, moved_to_delayed, process_node_job}
use spane.Engine.Processor.Guards.{EndsWith, process_node_job-processed, process_node_job-halted}
use spane.Samples.Workflows.{
  orders, fetch, check, fetched, execution_with, world_with, deps, job, job_data_of, registry,
  done_with,
}

abbrev pub setup : Setup
setup = record {
  deps = deps;
  registry = registry;
  rate_limiting = false;
  children_values = failure "no children";
  flow_answer = added_as "7";
  child_id = "exec-2";
  fuel = 4;
}

process_node_job-processed_example :
    EndsWith
      (world_with fetched)
      (finished (returned (done_with (str "body"))))
      []
      (process_node_job setup (job_data_of "fetch" none) job (world_with fetched))
unfolding find_node view get
process_node_job-processed_example =
    process_node_job-processed setup (job_data_of "fetch" none) job orders fetch
      (world_with fetched) fetched (done_with (str "body")) refl refl refl refl refl refl refl

abbrev paused : ExecutionState
paused = execution_with (("fetch", done_with (str "body")) ∷ []) Status.paused

process_node_job-halted_example :
    EndsWith
      (world_with paused)
      moved_to_delayed
      (job_delayed 5100 ∷ [])
      (process_node_job setup (job_data_of "check" none) job (world_with paused))
unfolding find_node view get
process_node_job-halted_example =
    process_node_job-halted setup (job_data_of "check" none) job orders check (world_with paused)
      paused moved_to_delayed (job_delayed 5100 ∷ []) refl refl refl refl refl refl refl
