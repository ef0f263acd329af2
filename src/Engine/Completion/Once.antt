-- ===== src/Engine/Completion/Once.antt =====
-- src/engine/handlers/child-enqueue-handler.ts: checkWorkflowCompletion as its callers see it.
use spane.Base.{
  String, ◌≡◌, refl, sym, ap, ◌∙◌, inl, inr, Bool, Option, [], ◌∷◌, ◌++◌, append_assoc, append-nil,
  Option-cases, arith, ◌==◌, eq_iff, if◌then◌else◌,
}
use spane.Memory.Executions.View.{view}
use spane.Engine.World.{World, Job, Deps, acquired, released, record_call}
use spane.Engine.Completion.{lock_key, check_workflow_completion}
use spane.Engine.Completion.Locked.{
  is_done, completes, completed_view, announcement, lock_calls, message, check_found-Checked,
}

-- whether a check completes the execution
abbrev pub will_complete : Deps → String → String → World → Bool
will_complete deps execution_id workflow_id w =
    completes (deps.workflow_of workflow_id) (deps.lock_token (lock_key execution_id))
      (view w.store execution_id)

-- For every state of the store: the check completes the execution exactly if the workflow is known, the
-- lock is obtained, the execution exists, is not failed, cancelled or completed, and has as many results
-- as the workflow has nodes; then its status is completed and its completion time is the clock's. Every
-- other execution, and this one otherwise, reads as before.
pub view-check_workflow_completion :
    (execution_id workflow_id : String) (job : Option Job) (deps : Deps) (w : World) (j : String)
    → view (check_workflow_completion execution_id workflow_id job deps w).store j ≡ (
        if execution_id == j
        then completed_view
            (will_complete deps execution_id workflow_id w)
            w.now
            (view w.store execution_id)
        else view w.store j)
unfolding check_workflow_completion
view-check_workflow_completion execution_id workflow_id job deps w j =
    elim (Option-cases (deps.workflow_of workflow_id)) [
      | inl e ↦ rw (e, check_workflow_completion) (ground (arith, eq_iff execution_id j))
      | inr (workflow, e) ↦ elim (Option-cases (deps.lock_token (lock_key execution_id))) [
        | inl t ↦ rw (e, t, check_workflow_completion) (ground (arith, eq_iff execution_id j))
        | inr (token, t) ↦
            rw (e, t, check_workflow_completion)
              ((check_found-Checked execution_id workflow_id job workflow
                  (record_call (acquired (lock_key execution_id)) w) _ refl).views
                j)
      ]
    ]

-- The calls of one check, in their order: nothing for an unknown workflow; one attempt at the lock where it
-- is refused; else the lock, the announcement to the job if and only if the check completes the execution,
-- and the release of the same lock with the token that was obtained.
pub calls-check_workflow_completion :
    (execution_id workflow_id : String) (job : Option Job) (deps : Deps) (w : World)
    → (check_workflow_completion execution_id workflow_id job deps w).calls
      ≡ w.calls
        ++ lock_calls
            (lock_key execution_id)
            (deps.workflow_of workflow_id)
            (deps.lock_token (lock_key execution_id))
            (announcement job
              (message execution_id workflow_id job w.now)
              (will_complete deps execution_id workflow_id w))
unfolding check_workflow_completion
calls-check_workflow_completion execution_id workflow_id job deps w =
    elim (Option-cases (deps.workflow_of workflow_id)) [
      | inl e ↦ rw (e, check_workflow_completion) (sym (append-nil w.calls))
      | inr (workflow, e) ↦ elim (Option-cases (deps.lock_token (lock_key execution_id))) [
        | inl t ↦ rw (e, t, check_workflow_completion) refl
        | inr (token, t) ↦
            let locked = record_call (acquired (lock_key execution_id)) w in
            let c = check_found-Checked execution_id workflow_id job workflow locked _ refl in
            let key = lock_key execution_id in
            let told =
              announcement job (message execution_id workflow_id job w.now)
                (is_done workflow (view w.store execution_id)) in
            rw (e, t, check_workflow_completion)
              (ap (λ l. l ++ released key token ∷ []) c.calls
                ∙ append_assoc (w.calls ++ acquired key ∷ []) told (released key token ∷ [])
                ∙ append_assoc w.calls (acquired key ∷ []) (told ++ released key token ∷ []))
      ]
    ]
