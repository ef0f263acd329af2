-- ===== src/Control/Halting.antt =====
-- src/engine/workflow-engine.ts: cancelWorkflow, pauseWorkflow and resumeWorkflow. Each
-- works on the state store and the node queue.
pub mod Selected
pub mod Cancel
pub mod Pause
pub mod Resume
pub mod Active
use spane.Base.{ℕ, String, Bool, Option, none, some, List, [], ◌∷◌, ◌==◌, if◌then◌else◌}
use spane.Base.Int.{pos}
use spane.Types.Execution.{Status}
use spane.Memory.State.{Store}
use spane.Memory.Executions.{get_execution, set_execution_status}
use spane.Control.Queue.{NodeQueue, QueuedJob, JobOptions, JobState, or_same}

-- 24 hours
abbrev pub pause_delay : ℕ
pause_delay = 86400000

abbrev pub cancelled_states : List JobState
cancelled_states =
    JobState.waiting ∷ JobState.delayed ∷ JobState.prioritized ∷ JobState.waiting_children ∷ []

abbrev pub delayed_states : List JobState
delayed_states = JobState.delayed ∷ []

abbrev pub paused_states : List JobState
paused_states = JobState.waiting ∷ JobState.prioritized ∷ []

-- `job.data.executionId === executionId`
abbrev pub belongs : String → QueuedJob → Bool
belongs id j = j.payload.execution_id == id

-- `{ ...jobOpts, jobId, delay, priority: jobOpts.priority }`
abbrev pub paused_options : QueuedJob → JobOptions
paused_options j = record (j.opts) {
  job_id = j.id;
  delay = some (pos pause_delay);
  priority = j.opts.priority;
}

module _ (node_queue : NodeQueue) where
  open node_queue use {Queue, get_jobs, remove, add, promote}

  unfoldable pub remove_jobs : String → List QueuedJob → Queue → Queue
  remove_jobs id [] q = q
  remove_jobs id (j ∷ js) q = remove_jobs id js (if belongs id j then remove j.id q else q)

  unfoldable pub cancel_workflow : ℕ → String → Store × Queue → Store × Queue
  unfolding remove_jobs
  cancel_workflow now id (s, q) =
      let (_, s') = get_execution now id s in
      (
        set_execution_status now id Status.cancelled s',
        remove_jobs id (get_jobs cancelled_states q) q,
      )

  abbrev pub move_to_delayed : QueuedJob → Queue → Queue
  move_to_delayed j q = add j.name j.payload (paused_options j) (remove j.id q)

  unfoldable pub delay_jobs : String → List QueuedJob → Queue → Queue
  delay_jobs id [] q = q
  delay_jobs id (j ∷ js) q = delay_jobs id js (if belongs id j then move_to_delayed j q else q)

  unfoldable pub pause_workflow : ℕ → String → Store × Queue → Store × Queue
  unfolding delay_jobs
  pause_workflow now id (s, q) =
      let (_, s') = get_execution now id s in
      (set_execution_status now id Status.paused s', delay_jobs id (get_jobs paused_states q) q)

  unfoldable pub promote_jobs : String → List QueuedJob → Queue → Queue
  promote_jobs id [] q = q
  promote_jobs id (j ∷ js) q =
      promote_jobs id js (if belongs id j then or_same q (promote j.id q) else q)

  unfoldable pub resume_workflow : ℕ → String → Store × Queue → Store × Queue
  unfolding promote_jobs
  resume_workflow now id (s, q) =
      (set_execution_status now id Status.running s, promote_jobs id (get_jobs delayed_states q) q)
