-- ===== src/Control/Halting/Resume.antt =====
-- src/engine/workflow-engine.ts: what resumeWorkflow leaves in the queue and in the store, and what a
-- pause followed by it does.
use spane.Base.{
  ℕ, String, ◌≡◌, refl, inl, inr, Bool-cases, Option, none, some, List, [], ◌∷◌, ◌==◌, ◌&&◌, eqb,
  if◌then◌else◌, arith, eq_refl, ◌∙◌, ap,
}
use spane.Base.Int.{pos}
use spane.Types.Execution.{ExecutionState, Status}
use spane.Memory.State.{Store}
use spane.Memory.Executions.{set_execution_status, with_status}
use spane.Memory.Executions.View.{view, view-modify_execution, update_view}
use spane.Control.Queue.{NodeQueue, QueuedJob, JobState, rank, ready_state, promoted_view, or_same}
use spane.Control.Halting.{
  belongs, paused_states, delayed_states, promote_jobs, pause_workflow, resume_workflow,
}
use spane.Control.Halting.Selected.{picked, selected, is_ready, picked-get_jobs}
use spane.Control.Halting.Pause.{Alone, paused_view, pause_workflow_lem}

promoted_twice : (o : Option QueuedJob) → promoted_view (promoted_view o) ≡ promoted_view o
promoted_twice none = refl
promoted_twice (some j) = ground arith

update_twice :
    (now later : ℕ) (o : Option ExecutionState)
    → update_view (with_status later Status.running) (update_view (with_status now Status.paused) o)
      ≡ update_view (λ e. with_status later Status.running (with_status now Status.paused e)) o
update_twice now later none = refl
update_twice now later (some e) = refl

-- what a pause and a resumption make of a job
abbrev pub resumed_job : String → QueuedJob → QueuedJob
resumed_job id j =
    if j.payload.execution_id == id && is_ready j.state
    then record j {
      opts = record (j.opts) { job_id = j.id; delay = some (pos 86400000) };
      state = ready_state j.opts;
    }
    else if j.payload.execution_id == id && eqb (rank j.state) (rank JobState.delayed)
    then record j { state = ready_state j.opts }
    else j

abbrev pub resumed_view : String → Option QueuedJob → Option QueuedJob
resumed_view id none = none
resumed_view id (some j) = some (resumed_job id j)

resumed_lem :
    (id : String) (o : Option QueuedJob)
    → (let p = if selected id paused_states o then paused_view o else o in
        if selected id delayed_states p then promoted_view p else p)
      ≡ resumed_view id o
resumed_lem id none = refl
resumed_lem id (some j) = ground arith

module _ (node_queue : NodeQueue) where
  open node_queue use {Queue, job_of, get_jobs, promote, promoted_lem}

  promoted_all :
      (id : String) (q : Queue) (js : List QueuedJob) (k : String)
      → job_of (promote_jobs node_queue id js q) k
        ≡ (if picked id k js then promoted_view (job_of q k) else job_of q k)
  unfolding promote_jobs
  promoted_all id q [] k = refl
  promoted_all id q (j ∷ js) k = elim (Bool-cases (belongs id j)) [
    | inl own ↦
        let rest = promoted_all id (or_same q (promote j.id q)) js k in
        let step = promoted_lem j.id q k in
        rw own (
          rest ∙ (elim (Bool-cases (j.id == k)) [
            | inl same ↦ ground (arith, promoted_twice (job_of q k))
            | inr other ↦ ground arith
          ]))
    | inr foreign ↦ rw foreign (promoted_all id q js k)
  ]

  -- resumeWorkflow makes every delayed job of the execution ready, whatever delayed it, and every other
  -- job is as it was. The execution, if the store has it, reads as before with the status running,
  -- whatever its status was; every other execution reads as before.
  pub resume_workflow_lem :
      (now : ℕ) (id : String) (s : Store) (q : Queue)
      → ((k : String)
          → job_of (resume_workflow node_queue now id (s, q)).1 k ≡ (
              if selected id delayed_states (job_of q k)
              then promoted_view (job_of q k)
              else job_of q k))
        × ((j : String)
            → view (resume_workflow node_queue now id (s, q)).0 j ≡ (
                if id == j
                then update_view (with_status now Status.running) (view s id)
                else view s j))
  unfolding resume_workflow set_execution_status
  resume_workflow_lem now id s q = (
    λ k.
        rw (← picked-get_jobs node_queue id k delayed_states q)
          (promoted_all id q (get_jobs delayed_states q) k),
    view-modify_execution now id (with_status now Status.running) s,
  )

  -- Where the jobs of the execution that wait or are prioritized have neither a child nor a parent, a
  -- pause and the resumption after it leave each of them ready again, under its id, with its name, its
  -- data and its priority. They also make ready each job of the execution that was delayed before the pause,
  -- such as that of a delay node, and leave every other job as it was. The execution, if the store has it,
  -- ends with the status running.
  pub resume_workflow-pause_workflow :
      (now later : ℕ) (id : String) (s : Store) (q : Queue) (k : String)
      → Alone node_queue id q (get_jobs paused_states q)
      → (job_of (resume_workflow node_queue later id (pause_workflow node_queue now id (s, q))).1 k
          ≡ resumed_view id (job_of q k))
        × (view (resume_workflow node_queue later id (pause_workflow node_queue now id (s, q))).0 id
            ≡ update_view
                (λ e. with_status later Status.running (with_status now Status.paused e))
                (view s id))
  resume_workflow-pause_workflow now later id s q k alone =
      let (jobs, views) = pause_workflow_lem node_queue now id s q alone in
      let paused = pause_workflow node_queue now id (s, q) in
      let (jobs', views') = resume_workflow_lem later id paused.0 paused.1 in
      (
        jobs' k
            ∙ ap (λ o. if selected id delayed_states o then promoted_view o else o) (jobs k)
            ∙ resumed_lem id (job_of q k),
        rw (views' id, views id) (rw eq_refl (update_twice now later (view s id))),
      )
