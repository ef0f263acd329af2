-- ===== src/Engine/Failures/Exhausted.antt =====
-- src/engine/worker-manager.ts: a job that fails for the last time.
use spane.Base.{
  ℕ, ◌+◌, String, ◌≡◌, refl, sym, ◌∙◌, ap, true, Option, none, some, [], ◌∷◌, ◌++◌, leb, eq_refl,
}
use spane.Base.Dict.{put}
use spane.Types.Execution.{ExecutionState, Status, error_result}
use spane.Memory.Executions.{update_node_result, with_status}
use spane.Memory.Executions.View.{view, update_view, view-modify_execution}
use spane.Metrics.{MetricsData, increment_nodes_failed, increment_dlq_items}
use spane.Engine.World.{World, Deps, store_result}
use spane.Engine.Completion.{check_workflow_completion}
use spane.Engine.Completion.Failed.{
  check_workflow_completion-handle_workflow_error, view-handle_workflow_error,
}
use spane.Engine.Failures.{
  FailedJob, Failing, failed_with, allowed, as_job, count_failure, on_node_failed,
}

-- the execution with the error of a node, failed at a time
abbrev pub failed_at : ℕ → String → String → ExecutionState → ExecutionState
failed_at now node_id message e =
    with_status now Status.failed
      (record e { node_results = put e.node_results node_id (error_result message) })

-- one failed node and one dead job more
abbrev pub one_more : Option MetricsData → Option MetricsData
one_more none = none
one_more (some m) = some (record m {
  nodes_failed_total = m.nodes_failed_total + 1;
  dlq_items_total = m.dlq_items_total + 1;
})

count_failure-one_more : (m : Option MetricsData) → count_failure m ≡ one_more m
unfolding increment_nodes_failed increment_dlq_items
count_failure-one_more none = refl
count_failure-one_more (some m) = refl

compose :
    (now : ℕ) (node_id message : String) (o : Option ExecutionState)
    → update_view (with_status now Status.failed) (
        update_view
          (λ e. record e { node_results = put e.node_results node_id (error_result message) })
          o)
      ≡ update_view (failed_at now node_id message) o
compose now node_id message none = refl
compose now node_id message (some e) = refl

stored_error :
    (id node_id message : String) (w : World)
    → view (store_result id node_id (error_result message) w).store id
      ≡ update_view
          (λ e. record e { node_results = put e.node_results node_id (error_result message) })
          (view w.store id)
unfolding update_node_result
stored_error id node_id message w = rw (view-modify_execution, eq_refl) refl

-- A job that fails with any error but a delay or a rate limit, and has used up its attempts, of which a
-- job without a number has one, is added to the dead letter queue with its data and the error, is
-- counted once as failed and once as dead, and leaves its execution failed, with the error as the
-- result of its node; a check for completion, which follows, leaves the execution as it is.
pub on_node_failed_exhausted :
    (job : FailedJob) (message : String) (deps : Deps) (st : Failing)
    → leb (allowed job.attempts) job.attempts_made ≡ true
    → (let after = on_node_failed (some job) (failed_with message) st in
        (after.dlq
          ≡ st.dlq
            ++ record {
              job_id = job.id;
              payload = job.payload;
              failed_reason = message;
              timestamp = st.world.now;
              stacktrace = job.stacktrace;
            }
              ∷ [])
        × (after.metrics ≡ one_more st.metrics)
        × (view after.world.store job.payload.execution_id
            ≡ update_view
                (failed_at st.world.now job.payload.node_id message)
                (view st.world.store job.payload.execution_id))
        × (view
              (check_workflow_completion job.payload.execution_id job.payload.workflow_id none deps
                after.world).store
              job.payload.execution_id
            ≡ view after.world.store job.payload.execution_id))
unfolding on_node_failed
on_node_failed_exhausted job message deps st h =
    let p = job.payload in
    let stored = store_result p.execution_id p.node_id (error_result message) st.world in
    let fails =
      view-handle_workflow_error p.execution_id p.workflow_id (some (as_job job)) message stored in
    rw (h, on_node_failed)
      (
        refl,
        count_failure-one_more st.metrics,
        fails
            ∙ ap (update_view (with_status st.world.now Status.failed))
                (stored_error p.execution_id p.node_id message st.world)
            ∙ compose st.world.now p.node_id message (view st.world.store p.execution_id),
        check_workflow_completion-handle_workflow_error p.execution_id p.workflow_id
              (some (as_job job)) none message deps stored
            ∙ sym fails,
      )
