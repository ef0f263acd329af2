-- ===== src/Control/Halting/Cancel.antt =====
-- src/engine/workflow-engine.ts: what cancelWorkflow leaves in the queue and in the store.
use spane.Base.{
  ℕ, String, ◌≡◌, refl, inl, inr, true, false, Bool-cases, if_cases, Option, none, some, List, [],
  ◌∷◌, ◌==◌, ◌&&◌, if◌then◌else◌, arith, eq_iff, ◌∙◌,
}
use spane.Types.Execution.{Status}
use spane.Memory.State.{Store}
use spane.Memory.Executions.{get_execution, set_execution_status, with_status}
use spane.Memory.Executions.View.{view, view-modify_execution, view-get_execution, update_view}
use spane.Control.Queue.{NodeQueue, QueuedJob, All}
use spane.Control.Halting.{belongs, cancelled_states, remove_jobs, cancel_workflow}
use spane.Control.Halting.Selected.{
  picked, selected, is_pending, includes-is_pending, picked-get_jobs,
}

-- A read of an execution and a new status change its status and nothing else.
pub view-halted :
    (now : ℕ) (id : String) (status : Status) (s : Store) (j : String)
    → view (set_execution_status now id status (get_execution now id s).1) j
      ≡ (if id == j then update_view (with_status now status) (view s id) else view s j)
unfolding set_execution_status
view-halted now id status s j =
    rw (view-modify_execution, view-get_execution, view-get_execution) refl

-- what a cancellation leaves of a job
abbrev pub remaining : String → Option QueuedJob → Option QueuedJob
remaining id none = none
remaining id (some j) = if j.payload.execution_id == id && is_pending j.state then none else some j

remaining_lem :
    (id : String) (o : Option QueuedJob)
    → (if selected id cancelled_states o then none else o) ≡ remaining id o
remaining_lem id none = refl
remaining_lem id (some j) = rw (← includes-is_pending j.state) refl

module _ (node_queue : NodeQueue) where
  open node_queue use {
    Queue, job_of, is_leaf, get_jobs, remove, removed_self, removed_fewer, removed_other,
    removed_leaf,
  }

  -- the jobs that a loop works on have no children
  abbrev pub Leaves : String → Queue → List QueuedJob → Type 0
  Leaves id q = All (λ j. belongs id j ≡ true → is_leaf q j.id ≡ true)

  pub Leaves-remove :
      (id k : String) (q : Queue) (js : List QueuedJob) → Leaves id q js → Leaves id (remove k q) js
  Leaves-remove id k q [] h = tt
  Leaves-remove id k q (j ∷ js) h =
      (λ own. removed_leaf k q j.id (h.0 own), Leaves-remove id k q js h.1)

  gone :
      (id k : String) (q : Queue) (js : List QueuedJob)
      → job_of q k ≡ none
      → job_of (remove_jobs node_queue id js q) k ≡ none
  unfolding remove_jobs
  gone id k q [] h = h
  gone id k q (j ∷ js) h = elim (Bool-cases (belongs id j)) [
    | inl own ↦
        rw own (
          gone id k (remove j.id q) js
            (elim (removed_fewer j.id q k) [ inl e ↦ e ∙ h | inr e ↦ e ]))
    | inr foreign ↦ rw foreign (gone id k q js h)
  ]

  removed-picked :
      (id k : String) (q : Queue) (js : List QueuedJob)
      → picked id k js ≡ true
      → job_of (remove_jobs node_queue id js q) k ≡ none
  unfolding remove_jobs
  removed-picked id k q [] h = cc
  removed-picked id k q (j ∷ js) h = elim (Bool-cases (belongs id j)) [
    | inl own ↦ elim (Bool-cases (j.id == k)) [
      | inl same ↦
          let e = (eq_iff j.id k).0 same in
          rw own (gone id k (remove j.id q) js (rw (← e) (removed_self j.id q)))
      | inr other ↦ rw own (removed-picked id k (remove j.id q) js (ground arith))
    ]
    | inr foreign ↦ rw foreign (removed-picked id k q js (ground arith))
  ]

  kept-picked :
      (id k : String) (q : Queue) (js : List QueuedJob)
      → Leaves id q js
      → picked id k js ≡ false
      → job_of (remove_jobs node_queue id js q) k ≡ job_of q k
  unfolding remove_jobs
  kept-picked id k q [] leaves h = refl
  kept-picked id k q (j ∷ js) leaves h = elim (Bool-cases (belongs id j)) [
    | inl own ↦ rw own (
        kept-picked id k (remove j.id q) js (Leaves-remove id j.id q js leaves.1) (ground arith)
        ∙ removed_other j.id q k (leaves.0 own) (λ e. ground (arith, eq_iff j.id k)))
    | inr foreign ↦ rw foreign (kept-picked id k q js leaves.1 (ground arith))
  ]

  -- After cancelWorkflow no job of the execution is left that waits, is delayed, is prioritized or waits
  -- for its children, whatever its children are.
  pub cancel_workflow_removes :
      (now : ℕ) (id : String) (s : Store) (q : Queue) (k : String)
      → selected id cancelled_states (job_of q k) ≡ true
      → job_of (cancel_workflow node_queue now id (s, q)).1 k ≡ none
  unfolding cancel_workflow
  cancel_workflow_removes now id s q k h =
      removed-picked id k q _ (picked-get_jobs node_queue id k cancelled_states q ∙ h)

  -- Where no job of the execution that waits, is delayed, is prioritized or waits for its children has a
  -- child, cancelWorkflow removes exactly these jobs, and every other job is as it was. The execution,
  -- if the store has it, reads as before with the status cancelled and the time of the call as its end,
  -- whatever its status was; every other execution reads as before.
  pub cancel_workflow_lem :
      (now : ℕ) (id : String) (s : Store) (q : Queue)
      → Leaves id q (get_jobs cancelled_states q)
      → ((k : String)
          → job_of (cancel_workflow node_queue now id (s, q)).1 k ≡ remaining id (job_of q k))
        × ((j : String)
            → view (cancel_workflow node_queue now id (s, q)).0 j ≡ (
                if id == j
                then update_view (with_status now Status.cancelled) (view s id)
                else view s j))
  unfolding cancel_workflow
  cancel_workflow_lem now id s q leaves = (
    λ k.
        let js = get_jobs cancelled_states q in
        let chosen = picked-get_jobs node_queue id k cancelled_states q in
        rw (← remaining_lem id (job_of q k), ← chosen)
          (if_cases (λ o. job_of (remove_jobs node_queue id js q) k ≡ o) (picked id k js) none
            (job_of q k) (removed-picked id k q js) (kept-picked id k q js leaves)),
    view-halted now id Status.cancelled s,
  )
