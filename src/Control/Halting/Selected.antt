-- ===== src/Control/Halting/Selected.antt =====
-- src/engine/workflow-engine.ts: which jobs the loops of cancelWorkflow, pauseWorkflow and
-- resumeWorkflow work on.
use spane.Base.{
  String, ◌≡◌, refl, inl, inr, Bool, true, false, Bool-cases, Option, none, some, Option-cases,
  List, [], ◌∷◌, ◌==◌, ◌&&◌, ◌||◌, arith, eq_iff, sym, ◌∙◌,
}
use spane.Control.Queue.{NodeQueue, QueuedJob, JobState, All, listed, includes}
use spane.Control.Halting.{belongs, cancelled_states}

-- one of the jobs has the id `k` and belongs to the execution
abbrev pub picked : String → String → List QueuedJob → Bool
picked id k [] = false
picked id k (j ∷ js) = (belongs id j && j.id == k) || picked id k js

-- the job belongs to the execution and is in one of the states
abbrev pub selected : String → List JobState → Option QueuedJob → Bool
selected id states none = false
selected id states (some j) = belongs id j && includes states j.state

-- a job that no worker has started, or that waits for its next attempt
abbrev pub is_pending : JobState → Bool
is_pending JobState.waiting = true
is_pending JobState.active = false
is_pending JobState.delayed = true
is_pending JobState.prioritized = true
is_pending JobState.waiting_children = true
is_pending JobState.completed = false
is_pending JobState.failed = false

-- a job that a worker may take
abbrev pub is_ready : JobState → Bool
is_ready JobState.waiting = true
is_ready JobState.active = false
is_ready JobState.delayed = false
is_ready JobState.prioritized = true
is_ready JobState.waiting_children = false
is_ready JobState.completed = false
is_ready JobState.failed = false

pub includes-is_pending : (s : JobState) → includes cancelled_states s ≡ is_pending s
includes-is_pending JobState.waiting = refl
includes-is_pending JobState.active = refl
includes-is_pending JobState.delayed = refl
includes-is_pending JobState.prioritized = refl
includes-is_pending JobState.waiting_children = refl
includes-is_pending JobState.completed = refl
includes-is_pending JobState.failed = refl

module _ (node_queue : NodeQueue) where
  open node_queue use {Queue, job_of, get_jobs, get_jobs_sound, get_jobs_complete}

  abbrev pub Known : List JobState → Queue → List QueuedJob → Type 0
  Known states q = All (λ j. (job_of q j.id ≡ some j) × (includes states j.state ≡ true))

  picked-selected :
      (id k : String) (states : List JobState) (q : Queue) (js : List QueuedJob)
      → Known states q js
      → picked id k js ≡ true
      → selected id states (job_of q k) ≡ true
  picked-selected id k states q [] known h = cc
  picked-selected id k states q (j ∷ js) known h =
      ground (arith, eq_iff j.id k, picked-selected id k states q js known.1)

  selected-picked :
      (id k : String) (states : List JobState) (q : Queue) (js : List QueuedJob) (x : QueuedJob)
      → Known states q js
      → job_of q k ≡ some x
      → belongs id x ≡ true
      → listed k js ≡ true
      → picked id k js ≡ true
  selected-picked id k states q [] x known found own h = cc
  selected-picked id k states q (j ∷ js) x known found own h =
      ground (arith, eq_iff j.id k, selected-picked id k states q js x known.1)

  -- The loop over the jobs in the states works on exactly the selected jobs.
  pub picked-get_jobs :
      (id k : String) (states : List JobState) (q : Queue)
      → picked id k (get_jobs states q) ≡ selected id states (job_of q k)
  picked-get_jobs id k states q =
      let known = get_jobs_sound states q in
      let js = get_jobs states q in
      elim (Option-cases (job_of q k)) [
        | inl e ↦ rw e (elim (Bool-cases (picked id k js)) [
          | inl h ↦ let g = picked-selected id k states q js known h in cc
          | inr h ↦ h
        ])
        | inr (x, e) ↦ elim (Bool-cases (picked id k js)) [
          | inl h ↦ h ∙ sym (picked-selected id k states q js known h)
          | inr h ↦
              ground (
                arith,
                selected-picked id k states q js x known e,
                get_jobs_complete states q k x e,
              )
        ]
      ]
