-- ===== src/Control/Halting/Active.antt =====
-- src/engine/workflow-engine.ts and src/engine/node-processor.ts: a job that runs while its execution is
-- cancelled or paused, and comes to its checks afterwards.
use spane.Base.{◌+◌, ◌≡◌, refl, ◌∙◌, false, some, [], ◌∷◌, ◌==◌, eq_refl, if◌then◌else◌}
use spane.Base.Dict.{get}
use spane.Types.Workflow.{NodeDefinition, WorkflowDefinition, find_node}
use spane.Types.Execution.{ExecutionState, Status}
use spane.Memory.State.{Store}
use spane.Memory.Executions.{with_status}
use spane.Memory.Executions.View.{view, update_view}
use spane.Engine.World.{World, Job, NodeJobData, job_delayed}
use spane.Engine.Registry.{returned}
use spane.Engine.Processor.{finished, moved_to_delayed, Setup, cancelled_result, process_node_job}
use spane.Engine.Processor.Guards.{EndsWith, already, process_node_job-halted}
use spane.Control.Queue.{NodeQueue}
use spane.Control.Halting.{cancel_workflow, pause_workflow}
use spane.Control.Halting.Cancel.{view-halted}

abbrev pub with_store : World → Store → World
with_store w s = record w { store = s }

module _ (node_queue : NodeQueue) (setup : Setup) (job_data : NodeJobData) (job : Job)
    (workflow : WorkflowDefinition) (node : NodeDefinition) (w : World) (e : ExecutionState) where
  open node_queue use {Queue}

  halted_view :
      (status : Status) (s : Store)
      → view w.store job_data.execution_id ≡ some e
      → view s job_data.execution_id ≡ (
          if job_data.execution_id == job_data.execution_id
          then update_view (with_status w.now status) (view w.store job_data.execution_id)
          else view w.store job_data.execution_id)
      → view s job_data.execution_id ≡ some (with_status w.now status e)
  halted_view status s exists h = h ∙ (rw (eq_refl, exists) refl)

  -- A job of a node of a known workflow, whose id is not one of the two reserved ones, which comes to its
  -- checks after cancelWorkflow or pauseWorkflow for its execution, whatever the status of the execution
  -- was, and has no result that succeeded or was skipped, starts nothing, and every execution reads as
  -- after that operation. After the cancellation it returns the cancellation error without a call, after
  -- the pause its only call is to move itself to the delayed jobs for 5000 ms.
  pub process_node_job-cancel_workflow :
      (q : Queue)
      → (job_data.node_id == "__root__") ≡ false
      → (job_data.node_id == "__aggregator__") ≡ false
      → setup.deps.workflow_of job_data.workflow_id ≡ some workflow
      → find_node workflow.nodes job_data.node_id ≡ some node
      → view w.store job_data.execution_id ≡ some e
      → already (get e.node_results job_data.node_id) ≡ false
      → (let cancelled =
            with_store w (cancel_workflow node_queue w.now job_data.execution_id (w.store, q)).0 in
          let paused =
            with_store w (pause_workflow node_queue w.now job_data.execution_id (w.store, q)).0 in
          EndsWith cancelled
            (finished (returned cancelled_result))
            []
            (process_node_job setup job_data job cancelled)
          × EndsWith paused moved_to_delayed
              (job_delayed (w.now + 5000) ∷ [])
              (process_node_job setup job_data job paused))
  unfolding cancel_workflow pause_workflow
  process_node_job-cancel_workflow q root aggregator known found exists fresh =
      let id = job_data.execution_id in
      (
        process_node_job-halted setup job_data job workflow node _
            (with_status w.now Status.cancelled e) _ _ root aggregator known found
            (halted_view Status.cancelled _ exists
              (view-halted w.now id Status.cancelled w.store id))
            fresh refl,
        process_node_job-halted setup job_data job workflow node _
            (with_status w.now Status.paused e) _ _ root aggregator known found
            (halted_view Status.paused _ exists (view-halted w.now id Status.paused w.store id))
            fresh refl,
      )
