-- ===== src/Engine/Failures/Cached.antt =====
-- src/engine/queue-manager.ts and src/engine/handlers/delay-handler.ts: which results of completed jobs
-- the store gets.
use spane.Base.{ℕ, String, ◌≡◌, refl, inl, inr, Bool-cases, some, ◌==◌, if◌then◌else◌}
use spane.Base.Dict.{put}
use spane.Base.Int.{ℤ}
use spane.Types.Json.{prop, get_field}
use spane.Types.Workflow.{NodeDefinition}
use spane.Types.Execution.{ExecutionResult}
use spane.Memory.Executions.{cache_node_result, update_node_result}
use spane.Memory.Executions.View.{view, update_view, view-modify_execution}
use spane.Engine.World.{World, Job, Deps, NodeJobData}
use spane.Engine.Delay.{handle_initial_step}
use spane.Engine.Failures.{cache_completed, is_delayed_result}

-- The result of a completed job is stored for its node, over any that is there, unless it says that the
-- node is delayed; no other execution changes.
pub cache_completed_lem :
    (payload : NodeJobData) (result : ExecutionResult) (w : World) (j : String)
    → view (cache_completed (some payload) result w).store j ≡ (
        if is_delayed_result result
        then view w.store j
        else if payload.execution_id == j
        then update_view
            (λ e. record e { node_results = put e.node_results payload.node_id result })
            (view w.store payload.execution_id)
        else view w.store j)
unfolding cache_completed cache_node_result update_node_result
cache_completed_lem payload result w j = elim (Bool-cases (is_delayed_result result)) [
  | inl e ↦ rw (e, cache_completed) refl
  | inr e ↦
      rw (e, cache_completed)
        (view-modify_execution w.now payload.execution_id
          (λ e. record e { node_results = put e.node_results payload.node_id result }) w.store j)
]

-- What the first step of a delay node answers is not cached, whatever the duration: the node stays
-- without a result until the resumed job stores one.
pub cache_completed-handle_initial_step :
    (deps : Deps) (fuel : ℕ) (job_data : NodeJobData) (job : Job) (node : NodeDefinition)
    (duration : ℤ) (w later : World)
    → cache_completed
        (some job_data)
        (handle_initial_step deps fuel job_data job node duration w).0
        later
      ≡ later
unfolding cache_completed handle_initial_step prop get_field
cache_completed-handle_initial_step deps fuel job_data job node duration w later = refl
