-- ===== src/Samples/Control.antt =====
-- The theorems on the engine's control of executions and on its requests, at concrete queues.
use spane.Base.{String, ◌≡◌, refl, none, [], ◌∷◌, ◌==◌, if◌then◌else◌}
use spane.Base.Dict.{Dict, get}
use spane.Types.Workflow.{find_node}
use spane.Types.Execution.{Status}
use spane.Memory.Executions.{with_status}
use spane.Memory.Executions.View.{view, update_view}
use spane.NodeUtils.Retry.{default_retry_config}
use spane.Engine.World.{job_delayed}
use spane.Engine.Registry.{returned}
use spane.Engine.Processor.{finished, moved_to_delayed, cancelled_result, process_node_job}
use spane.Engine.Processor.Guards.{EndsWith}
use spane.Control.Queue.{QueuedJob, JobState}
use spane.Control.Halting.{cancel_workflow, pause_workflow, resume_workflow}
use spane.Control.Halting.Cancel.{remaining, cancel_workflow_lem}
use spane.Control.Halting.Resume.{resumed_view, resume_workflow-pause_workflow}
use spane.Control.Halting.Active.{with_store, process_node_job-cancel_workflow}
use spane.Samples.Workflows.{check, orders, fetched, store_with, world_with, job, job_data_of}
use spane.Samples.Routing.{setup}
use spane.Samples.Queue.{node_queue, find_job, jobs_in}

-- a job of an execution in a state
abbrev job_in : String → String → JobState → QueuedJob
job_in id execution_id state = record {
  id = id;
  name = "process-node";
  payload = record (job_data_of "check" none) { execution_id = execution_id };
  opts = record {
    job_id = id;
    retry = default_retry_config;
    priority = none;
    delay = none;
    parent = none;
  };
  state = state;
}

-- a waiting job and a delayed one of an execution, and a job of another
abbrev jobs : Dict QueuedJob
jobs =
    ("j-1", job_in "j-1" "exec-1" JobState.waiting)
    ∷ ("j-2", job_in "j-2" "exec-1" JobState.delayed)
    ∷ ("j-3", job_in "j-3" "exec-2" JobState.waiting)
    ∷ []

cancel_workflow_lem_example :
    ((k : String)
      → find_job (cancel_workflow node_queue 100 "exec-1" (store_with fetched, jobs)).1 k
        ≡ remaining "exec-1" (find_job jobs k))
    × ((j : String)
        → view (cancel_workflow node_queue 100 "exec-1" (store_with fetched, jobs)).0 j ≡ (
            if "exec-1" == j
            then update_view (with_status 100 Status.cancelled) (view (store_with fetched) "exec-1")
            else view (store_with fetched) j))
unfolding jobs_in find_job get
cancel_workflow_lem_example =
    cancel_workflow_lem node_queue 100 "exec-1" (store_with fetched) jobs
      ((λ _. refl), ((λ _. refl), ((λ _. refl), tt)))

resume_workflow-pause_workflow_example :
    (find_job
        (resume_workflow node_queue 200 "exec-1"
          (pause_workflow node_queue 100 "exec-1" (store_with fetched, jobs))).1
        "j-2"
      ≡ resumed_view "exec-1" (find_job jobs "j-2"))
    × (view
          (resume_workflow node_queue 200 "exec-1"
            (pause_workflow node_queue 100 "exec-1" (store_with fetched, jobs))).0
          "exec-1"
        ≡ update_view
            (λ e. with_status 200 Status.running (with_status 100 Status.paused e))
            (view (store_with fetched) "exec-1"))
unfolding jobs_in find_job get
resume_workflow-pause_workflow_example =
    resume_workflow-pause_workflow node_queue 100 200 "exec-1" (store_with fetched) jobs "j-2"
      ((λ _. (refl, refl)), ((λ _. (refl, refl)), tt))

process_node_job-cancel_workflow_example :
    EndsWith
      (with_store
        (world_with fetched)
        (cancel_workflow node_queue 100 "exec-1" (store_with fetched, jobs)).0)
      (finished (returned cancelled_result))
      []
      (process_node_job setup (job_data_of "check" none) job (
        with_store
          (world_with fetched)
          (cancel_workflow node_queue 100 "exec-1" (store_with fetched, jobs)).0))
    × EndsWith
        (with_store
          (world_with fetched)
          (pause_workflow node_queue 100 "exec-1" (store_with fetched, jobs)).0)
        moved_to_delayed
        (job_delayed 5100 ∷ [])
        (process_node_job setup (job_data_of "check" none) job (
          with_store
            (world_with fetched)
            (pause_workflow node_queue 100 "exec-1" (store_with fetched, jobs)).0))
unfolding find_node view get
process_node_job-cancel_workflow_example =
    process_node_job-cancel_workflow node_queue setup (job_data_of "check" none) job orders check
      (world_with fetched) fetched jobs refl refl refl refl refl refl
