-- ===== src/Control/Halting/Pause.antt =====
-- src/engine/workflow-engine.ts: what pauseWorkflow leaves in the queue and in the store.
use spane.Base.{
  ℕ, String, ◌≡◌, refl, inl, inr, true, Bool-cases, if_cases, Option, none, some, List, [], ◌∷◌,
  ◌==◌, if◌then◌else◌, arith, eq_iff, sym, ◌∙◌, ap,
}
use spane.Types.Execution.{Status}
use spane.Memory.State.{Store}
use spane.Memory.Executions.{with_status}
use spane.Memory.Executions.View.{view, update_view}
use spane.Control.Queue.{NodeQueue, QueuedJob, JobState, All, queued}
use spane.Control.Halting.{
  belongs, paused_states, paused_options, move_to_delayed, delay_jobs, pause_workflow,
}
use spane.Control.Halting.Selected.{picked, selected, picked-get_jobs, Known}
use spane.Control.Halting.Cancel.{view-halted}

-- the job under the same id, with the same name and data, delayed for 24 hours
abbrev pub paused_job : QueuedJob → QueuedJob
paused_job j = queued j.name j.payload (paused_options j)

abbrev pub paused_view : Option QueuedJob → Option QueuedJob
paused_view none = none
paused_view (some j) = some (paused_job j)

module _ (node_queue : NodeQueue) where
  open node_queue use {
    Queue, job_of, is_leaf, get_jobs, remove, add, removed_self, removed_other, removed_leaf, added,
    added_leaf, get_jobs_sound,
  }

  -- a job of the execution has neither a child nor a parent
  abbrev pub Alone : String → Queue → List QueuedJob → Type 0
  Alone id q = All (λ j. belongs id j ≡ true → (is_leaf q j.id ≡ true) × (j.opts.parent ≡ none))

  -- a job of the list is, once paused, the job of the queue under its id, once paused
  Fresh : Queue → List QueuedJob → Type 0
  Fresh q = All (λ j. paused_view (job_of q j.id) ≡ some (paused_job j))

  moved :
      (j : QueuedJob) (q : Queue) (k : String)
      → is_leaf q j.id ≡ true
      → j.opts.parent ≡ none
      → job_of (move_to_delayed node_queue j q) k
        ≡ (if j.id == k then some (paused_job j) else job_of q k)
  moved j q k leaf orphan = elim (Bool-cases (j.id == k)) [
    | inl same ↦
        let e = (eq_iff j.id k).0 same in
        let gone = removed_self j.id q in
        rw (added j.name j.payload (paused_options j) (remove j.id q) k orphan)
          (ground (arith, eq_iff j.id k, ap (λ i. job_of (remove j.id q) i) e))
    | inr other ↦
        rw (added j.name j.payload (paused_options j) (remove j.id q) k orphan)
          (rw other (removed_other j.id q k leaf (λ e. ground (arith, eq_iff j.id k))))
  ]

  Alone-moved :
      (id : String) (q : Queue) (i : QueuedJob) (js : List QueuedJob)
      → i.opts.parent ≡ none
      → Alone id q js
      → Alone id (move_to_delayed node_queue i q) js
  Alone-moved id q i [] orphan h = tt
  Alone-moved id q i (j ∷ js) orphan h = (
    λ own. (
      added_leaf i.name i.payload (paused_options i) (remove i.id q) j.id orphan
          (removed_leaf i.id q j.id (h.0 own).0),
      (h.0 own).1,
    ),
    Alone-moved id q i js orphan h.1,
  )

  Fresh-moved :
      (q : Queue) (i : QueuedJob) (js : List QueuedJob)
      → is_leaf q i.id ≡ true
      → i.opts.parent ≡ none
      → paused_view (job_of q i.id) ≡ some (paused_job i)
      → Fresh q js
      → Fresh (move_to_delayed node_queue i q) js
  unfolding Fresh
  Fresh-moved q i [] leaf orphan same h = tt
  Fresh-moved q i (j ∷ js) leaf orphan same h = (
    elim (Bool-cases (i.id == j.id)) [
      | inl e ↦
          rw (moved i q j.id leaf orphan, e)
            (sym same ∙ ap (λ k. paused_view (job_of q k)) ((eq_iff i.id j.id).0 e) ∙ h.0)
      | inr e ↦ rw (moved i q j.id leaf orphan, e) h.0
    ],
    Fresh-moved q i js leaf orphan same h.1,
  )

  delayed :
      (id : String) (q : Queue) (js : List QueuedJob) (k : String)
      → Alone id q js
      → Fresh q js
      → job_of (delay_jobs node_queue id js q) k
        ≡ (if picked id k js then paused_view (job_of q k) else job_of q k)
  unfolding delay_jobs Fresh
  delayed id q [] k alone fresh = refl
  delayed id q (j ∷ js) k alone fresh = elim (Bool-cases (belongs id j)) [
    | inl own ↦
        let leaf = (alone.0 own).0 in
        let orphan = (alone.0 own).1 in
        let rest =
          delayed id (move_to_delayed node_queue j q) js k (Alone-moved id q j js orphan alone.1)
            (Fresh-moved q j js leaf orphan fresh.0 fresh.1) in
        rw own (
          rest ∙ (elim (Bool-cases (j.id == k)) [
            | inl same ↦
                let e = sym fresh.0 ∙ ap (λ i. paused_view (job_of q i)) ((eq_iff j.id k).0 same) in
                rw (moved j q k leaf orphan, same)
                  (if_cases (λ o. o ≡ paused_view (job_of q k)) (picked id k js) _ _ (λ _. e)
                    (λ _. e))
            | inr other ↦ rw (moved j q k leaf orphan, other) refl
          ]))
    | inr foreign ↦ rw foreign (delayed id q js k alone.1 fresh.1)
  ]

  Fresh-Known :
      (states : List JobState) (q : Queue) (js : List QueuedJob)
      → Known node_queue states q js
      → Fresh q js
  unfolding Fresh
  Fresh-Known states q [] h = tt
  Fresh-Known states q (j ∷ js) h = (ap paused_view h.0.0, Fresh-Known states q js h.1)

  -- Where the jobs of the execution that wait or are prioritized have neither a child nor a parent,
  -- pauseWorkflow puts under the id of each of them a job with the same name, data and options that is
  -- delayed for 24 hours, and every other job, delayed ones of the execution included, is as it was. The
  -- execution, if the store has it, reads as before with the status paused, whatever its status was;
  -- every other execution reads as before.
  pub pause_workflow_lem :
      (now : ℕ) (id : String) (s : Store) (q : Queue)
      → Alone id q (get_jobs paused_states q)
      → ((k : String)
          → job_of (pause_workflow node_queue now id (s, q)).1 k ≡ (
              if selected id paused_states (job_of q k)
              then paused_view (job_of q k)
              else job_of q k))
        × ((j : String)
            → view (pause_workflow node_queue now id (s, q)).0 j ≡ (
                if id == j
                then update_view (with_status now Status.paused) (view s id)
                else view s j))
  unfolding pause_workflow
  pause_workflow_lem now id s q alone = (
    λ k.
        let js = get_jobs paused_states q in
        rw (← picked-get_jobs node_queue id k paused_states q) (
          delayed id q js k alone
            (Fresh-Known paused_states q js (get_jobs_sound paused_states q))),
    view-halted now id Status.paused s,
  )
