-- ===== src/Engine/Completion.antt =====
-- src/engine/handlers/child-enqueue-handler.ts: checkWorkflowCompletion and handleWorkflowError.
pub mod Locked
pub mod Once
pub mod Failed
use Prim.Native.String
use spane.Base.{ℕ, zero, suc, String, Bool, true, false, Option, none, some, List, [], ◌∷◌, length}
use spane.Base.Int.{ℤ, pos}
use spane.Types.Workflow.{WorkflowDefinition}
use spane.Types.Execution.{ExecutionState, Status}
use spane.Events.{workflow_progress, WorkflowStatus}
use spane.Engine.World.{
  World, Job, Deps, acquired, released, record_call, emit_if, store_status, read_execution,
  read_pending,
}

abbrev pub is_zero : ℤ → Bool
is_zero (pos zero) = true
is_zero _ = false

-- the statuses at which the check returns early
abbrev pub is_settled : Status → Bool
is_settled Status.failed = true
is_settled Status.cancelled = true
is_settled Status.completed = true
is_settled Status.running = false
is_settled Status.paused = false

abbrev pub lock_key : String → String
lock_key execution_id = String.◌++◌ "completion:" execution_id

module _ (execution_id workflow_id : String) (job : Option Job) where
  unfoldable pub complete_if : Bool → World → World
  complete_if false w = w
  complete_if true w =
      emit_if job (workflow_progress w.now workflow_id execution_id WorkflowStatus.completed none)
        (store_status execution_id Status.completed w)

  -- behind the early returns
  unfoldable pub complete_when_done : WorkflowDefinition → World → World
  unfolding complete_if
  complete_when_done workflow w =
      let (pending, w') = read_pending execution_id (length workflow.nodes) w in
      complete_if (is_zero pending) w'

  -- the body of the `try`
  unfoldable pub check_locked : WorkflowDefinition → World → World
  unfolding complete_when_done
  check_locked workflow w =
      let (found, w') = read_execution execution_id w in
      elim found [
        | none ↦ w'
        | some e ↦ elim (is_settled e.status) [ true ↦ w' | false ↦ complete_when_done workflow w' ]
      ]

  unfoldable pub check_workflow_completion : Deps → World → World
  unfolding check_locked
  check_workflow_completion deps w = elim (deps.workflow_of workflow_id) [
    | none ↦ w
    | some workflow ↦ elim (deps.lock_token (lock_key execution_id)) [
      | none ↦ record_call (acquired (lock_key execution_id)) w
      | some token ↦
          record_call (released (lock_key execution_id) token)
            (check_locked workflow (record_call (acquired (lock_key execution_id)) w))
    ]
  ]

  unfoldable pub handle_workflow_error : String → World → World
  handle_workflow_error error w =
      emit_if job
        (workflow_progress w.now workflow_id execution_id WorkflowStatus.failed (some error))
        (store_status execution_id Status.failed w)
