-- ===== src/Engine/Execution/Ending.antt =====
-- src/engine/handlers/execution-handler.ts: how the execution of a regular node ends.
use spane.Base.{
  ℕ, suc, String, ◌≡◌, refl, ◌∙◌, inl, inr, Bool, true, false, ◌||◌, ◌&&◌, if_cases, Option, none,
  some, has, Option-cases, eq_refl, leb,
}
use spane.Base.Dict.{put, get-put}
use spane.Types.Workflow.{NodeDefinition}
use spane.Types.Execution.{ExecutionResult, ExecutionState, Status}
use spane.Memory.Executions.{update_node_result, set_execution_status, get_node_results}
use spane.Memory.Executions.View.{view, view-modify_execution, view-get_execution}
use spane.NodeUtils.Retry.{create_continue_on_fail_result}
use spane.Events.{node_started}
use spane.Engine.World.{World, Job, Deps, NodeJobData, emit, store_result, read_results}
use spane.Engine.Completion.{handle_workflow_error}
use spane.Engine.Registry.{NodeRegistry, get_executor, Outcome, returned, thrown}
use spane.Engine.Execution.{
  max_attempts_of, continues_on_fail, advance, with_outcome, handle_execution_error, finish_node,
  context_of, execute_regular_node,
}
use spane.Engine.Execution.Advance.{stored, advance-Keeps}

-- the status that the store holds for an execution
abbrev pub status_of : Option ExecutionState → Option Status
status_of none = none
status_of (some e) = some e.status

abbrev pub is_failed : Option Status → Bool
is_failed (some Status.failed) = true
is_failed _ = false

or_true : (b : Bool) → (b || true) ≡ true
or_true true = refl
or_true false = refl

module _ (job_data : NodeJobData) where
  -- A result that is returned is the one that the store holds for the node, and one that is no success
  -- has failed the execution; an error that is thrown leaves all executions as they were.
  abbrev pub Settles : World → Outcome → World → Type 0
  Settles w (returned r) w' =
      (stored w' job_data.execution_id job_data.node_id ≡ some r)
      × ((r.success || is_failed (status_of (view w'.store job_data.execution_id))) ≡ true)
  Settles w (thrown message) w' = (j : String) → view w'.store j ≡ view w.store j

  abbrev Ends : World → Option (Outcome × World) → Type 0
  Ends w ran = (o : Outcome) × (w' : World) × (ran ≡ some (o, w')) × Settles w o w'

  stored-store_result :
      (r : ExecutionResult) (w : World) (e : ExecutionState)
      → view w.store job_data.execution_id ≡ some e
      → view (store_result job_data.execution_id job_data.node_id r w).store job_data.execution_id
        ≡ some (record e { node_results = put e.node_results job_data.node_id r })
  unfolding update_node_result
  stored-store_result r w e h = rw (view-modify_execution, eq_refl, h) refl

  module _ (deps : Deps) (fuel : ℕ) (job : Job) (node : NodeDefinition) where
    succeeded :
        (r : ExecutionResult) (w v : World) (e : ExecutionState)
        → r.success ≡ true
        → has node.outputs job_data.node_id ≡ false
        → view w.store job_data.execution_id ≡ some e
        → v.store ≡ (store_result job_data.execution_id job_data.node_id r w).store
        → Ends w (
            with_outcome deps
              (suc (suc fuel))
              job_data
              job
              node
              (returned r)
              (advance deps (suc (suc fuel)) job_data job node r.next_nodes v))
    succeeded r w v e good apart h same =
        let (w', s, kept) =
          advance-Keeps deps fuel job_data job node r.next_nodes v job_data.node_id apart in
        (
          returned r,
          w',
          rw s refl,
          (rw (kept, same, stored-store_result r w e h) (rw (get-put, eq_refl) refl), rw good refl),
        )

    failed :
        (r : ExecutionResult) (w v : World) (e : ExecutionState) (message : String)
        → view w.store job_data.execution_id ≡ some e
        → v.store ≡ (store_result job_data.execution_id job_data.node_id r w).store
        → Settles w
            (returned r)
            (handle_workflow_error job_data.execution_id job_data.workflow_id (some job) message v)
    unfolding handle_workflow_error set_execution_status
    failed r w v e message h same = (
      rw (view-modify_execution, eq_refl, same, stored-store_result r w e h)
          (rw (get-put, eq_refl) refl),
      rw (view-modify_execution, eq_refl, same, stored-store_result r w e h) (or_true r.success),
    )

    finish_node-Ends :
        (o : Outcome) (w : World) (e : ExecutionState)
        → has node.outputs job_data.node_id ≡ false
        → view w.store job_data.execution_id ≡ some e
        → Ends w (finish_node deps (suc (suc fuel)) job_data job node o w)
    unfolding finish_node handle_execution_error create_continue_on_fail_result
    finish_node-Ends (returned r) w e apart h =
        if_cases (Ends w) r.success _ _ (λ g. succeeded r w _ e g apart h refl)
          (λ g. (returned r, _, refl, failed r w _ e _ h refl))
    finish_node-Ends (thrown message) w e apart h =
        if_cases (Ends w) (continues_on_fail node && leb (max_attempts_of job) job.attempts_made) _
          _ (λ g. succeeded (create_continue_on_fail_result message) w _ e refl apart h refl)
          (λ g. (thrown message, _, refl, λ j. refl))

    -- the same from a world that reads alike
    Settles-from :
        (o : Outcome) (w v w' : World)
        → ((j : String) → view v.store j ≡ view w.store j)
        → Settles v o w'
        → Settles w o w'
    Settles-from (returned r) w v w' same s = s
    Settles-from (thrown message) w v w' same s = λ j. s j ∙ same j

-- For an execution that the store knows and a node that is not among its own outputs, executeRegularNode
-- ends at fuel 2 and above, whatever the executor does. If it returns a result, the store then holds
-- that result for the node, and a result without success has set the execution to failed; this covers
-- the result that continueOnFail makes of an error. If it throws, every execution reads as before.
pub execute_regular_node-Settles :
    (job_data : NodeJobData) (deps : Deps) (fuel : ℕ) (job : Job) (node : NodeDefinition)
    (registry : NodeRegistry) (rate_limiting : Bool) (w : World) (e : ExecutionState)
    → has node.outputs job_data.node_id ≡ false
    → view w.store job_data.execution_id ≡ some e
    → (o : Outcome) × (w' : World) × (execute_regular_node deps
          (suc (suc fuel))
          job_data
          job
          node
          registry
          rate_limiting
          (some e)
          w
        ≡ some (o, w'))
      × Settles job_data w o w'
unfolding execute_regular_node get_node_results
execute_regular_node-Settles job_data deps fuel job node registry rate_limiting w e apart h =
    elim (Option-cases (get_executor registry node.type)) [
      | inl n ↦ rw (n, execute_regular_node) (thrown _, w, refl, λ j. refl)
      | inr (executor, x) ↦
          let (previous, read) = read_results job_data.execution_id node.inputs w in
          let same = view-get_execution w.now job_data.execution_id w.store in
          let (o, w', s, q) =
            finish_node-Ends job_data deps fuel job node
              (executor (
                context_of deps (suc (suc fuel)) job_data job node rate_limiting (some e) previous))
              (emit
                (node_started read.now job_data.node_id job_data.workflow_id job_data.execution_id)
                read)
              e apart (same job_data.execution_id ∙ h) in
          rw (x, execute_regular_node)
            (o, w', s, Settles-from job_data deps fuel job node o w read w' same q)
    ]
