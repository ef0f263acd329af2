-- ===== src/Engine/Completion/Failed.antt =====
-- src/engine/handlers/child-enqueue-handler.ts: handleWorkflowError, followed by a check for completion.
use spane.Base.{ℕ, String, ◌≡◌, refl, false, Option, none, some, eq_refl}
use spane.Types.Workflow.{WorkflowDefinition}
use spane.Types.Execution.{ExecutionState, Status}
use spane.Memory.Executions.{with_status, set_execution_status}
use spane.Memory.Executions.View.{view, update_view, view-modify_execution}
use spane.Engine.World.{World, Job, Deps, emit_if}
use spane.Events.{ProgressPayload}
use spane.Engine.Completion.{lock_key, check_workflow_completion, handle_workflow_error}
use spane.Engine.Completion.Locked.{completes}
use spane.Engine.Completion.Once.{view-check_workflow_completion}

completes-failed :
    (workflow : Option WorkflowDefinition) (token : Option String) (found : Option ExecutionState)
    (now : ℕ)
    → completes workflow token (update_view (with_status now Status.failed) found) ≡ false
completes-failed none token found now = refl
completes-failed (some workflow) none found now = refl
completes-failed (some workflow) (some token) none now = refl
completes-failed (some workflow) (some token) (some e) now = refl

emit_if-store : (w : World) (o : Option Job) (p : ProgressPayload) → (emit_if o p w).store ≡ w.store
emit_if-store w none p = refl
emit_if-store w (some j) p = refl

pub view-handle_workflow_error :
    (execution_id workflow_id : String) (job : Option Job) (error : String) (w : World)
    → view (handle_workflow_error execution_id workflow_id job error w).store execution_id
      ≡ update_view (with_status w.now Status.failed) (view w.store execution_id)
unfolding handle_workflow_error set_execution_status
view-handle_workflow_error execution_id workflow_id job error w =
    rw (emit_if-store, view-modify_execution, eq_refl) refl

-- An execution that an error has failed stays failed: a check for completion that comes right behind
-- handleWorkflowError leaves it failed with the time of the error as its completion time, even if every
-- node has a result.
pub check_workflow_completion-handle_workflow_error :
    (execution_id workflow_id : String) (job other : Option Job) (error : String) (deps : Deps)
    (w : World)
    → view
        (check_workflow_completion execution_id workflow_id other deps
          (handle_workflow_error execution_id workflow_id job error w)).store
        execution_id
      ≡ update_view (with_status w.now Status.failed) (view w.store execution_id)
check_workflow_completion-handle_workflow_error execution_id workflow_id job other error deps w =
    rw
      (
        view-check_workflow_completion,
        eq_refl,
        view-handle_workflow_error,
        completes-failed (deps.workflow_of workflow_id) (deps.lock_token (lock_key execution_id))
            (view w.store execution_id) w.now,
      )
      refl
