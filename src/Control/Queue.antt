-- ===== src/Control/Queue.antt =====
-- The node queue, a queue of BullMQ, as src/engine/workflow-engine.ts uses it: the jobs by their ids,
-- and what `getJobs`, `remove`, `add` and `promote` do to them. BullMQ is not part of the repository:
-- its queue is a parameter, with the documented behaviour as laws.
use spane.Base.{
  ℕ, String, ◌≡◌, ◌≢◌, ◌⊎◌, Bool, true, false, Option, none, some, List, [], ◌∷◌, ◌==◌, ◌||◌, eqb,
  if◌then◌else◌,
}
use spane.Base.Int.{ℤ, exceeds}
use spane.NodeUtils.Retry.{RetryConfig}
use spane.Engine.World.{NodeJobData}

pub data JobState : Type 0 where
  waiting active delayed prioritized waiting_children completed failed : JobState

abbrev pub rank : JobState → ℕ
rank JobState.waiting = 0
rank JobState.active = 1
rank JobState.delayed = 2
rank JobState.prioritized = 3
rank JobState.waiting_children = 4
rank JobState.completed = 5
rank JobState.failed = 6

-- `states.includes(state)`
abbrev pub includes : List JobState → JobState → Bool
includes [] s = false
includes (t ∷ ts) s = eqb (rank t) (rank s) || includes ts s

-- the options of `nodeQueue.add`; `parent` is the id of the job that waits for this one
pub record JobOptions : Type 0 where
  pub job_id : String
  pub retry : RetryConfig
  pub priority : Option ℤ
  pub delay : Option ℤ
  pub parent : Option String

pub record QueuedJob : Type 0 where
  pub id : String
  pub name : String
  pub payload : NodeJobData
  pub opts : JobOptions
  pub state : JobState

abbrev pub is_positive : Option ℤ → Bool
is_positive none = false
is_positive (some z) = exceeds z 0

-- where a job waits that is not delayed
abbrev pub ready_state : JobOptions → JobState
ready_state opts = if is_positive opts.priority then JobState.prioritized else JobState.waiting

-- the job that an addition makes
abbrev pub queued : String → NodeJobData → JobOptions → QueuedJob
queued name payload opts = record {
  id = opts.job_id;
  name = name;
  payload = payload;
  opts = opts;
  state = if is_positive opts.delay then JobState.delayed else ready_state opts;
}

-- A job that is there already keeps its place.
abbrev pub or_added : Option QueuedJob → QueuedJob → Option QueuedJob
or_added none j = some j
or_added (some i) j = some i

-- A job that is delayed becomes ready; the promotion of any other throws.
abbrev pub promoted : QueuedJob → QueuedJob
promoted j = elim j.state [ JobState.delayed ↦ record j { state = ready_state j.opts } | _ ↦ j ]

abbrev pub promoted_view : Option QueuedJob → Option QueuedJob
promoted_view none = none
promoted_view (some j) = some (promoted j)

abbrev pub All : (QueuedJob → Type 0) → List QueuedJob → Type 0
All P [] = Unit
All P (j ∷ js) = P j × All P js

abbrev pub listed : String → List QueuedJob → Bool
listed id [] = false
listed id (j ∷ js) = j.id == id || listed id js

-- what a call that throws, and is caught, leaves behind
abbrev pub or_same {ℓ} : {A : Type ℓ} → A → Option A → A
or_same a none = a
or_same a (some b) = b

-- `is_leaf q id`: no job of the queue waits for another as its child under this id. A removal takes
-- the children of a job along.
pub record NodeQueue : Type 1 where
  pub Queue : Type 0
  pub job_of : Queue → String → Option QueuedJob
  pub is_leaf : Queue → String → Bool
  pub get_jobs : List JobState → Queue → List QueuedJob
  pub remove : String → Queue → Queue
  pub add : String → NodeJobData → JobOptions → Queue → Queue
  pub promote : String → Queue → Option Queue
  pub get_jobs_sound :
      (states : List JobState) (q : Queue)
      → All (λ j. (job_of q j.id ≡ some j) × (includes states j.state ≡ true)) (get_jobs states q)
  pub get_jobs_complete :
      (states : List JobState) (q : Queue) (id : String) (j : QueuedJob)
      → job_of q id ≡ some j
      → includes states j.state ≡ true
      → listed id (get_jobs states q) ≡ true
  pub removed_self : (id : String) (q : Queue) → job_of (remove id q) id ≡ none
  pub removed_fewer :
      (id : String) (q : Queue) (k : String)
      → (job_of (remove id q) k ≡ job_of q k) ⊎ (job_of (remove id q) k ≡ none)
  pub removed_other :
      (id : String) (q : Queue) (k : String)
      → is_leaf q id ≡ true
      → id ≢ k
      → job_of (remove id q) k ≡ job_of q k
  pub removed_leaf :
      (id : String) (q : Queue) (k : String) → is_leaf q k ≡ true → is_leaf (remove id q) k ≡ true
  pub added :
      (name : String) (payload : NodeJobData) (opts : JobOptions) (q : Queue) (k : String)
      → opts.parent ≡ none
      → job_of (add name payload opts q) k ≡ (
          if opts.job_id == k then or_added (job_of q k) (queued name payload opts) else job_of q k)
  pub added_leaf :
      (name : String) (payload : NodeJobData) (opts : JobOptions) (q : Queue) (k : String)
      → opts.parent ≡ none
      → is_leaf q k ≡ true
      → is_leaf (add name payload opts q) k ≡ true
  pub promoted_lem :
      (id : String) (q : Queue) (k : String)
      → job_of (or_same q (promote id q)) k
        ≡ (if id == k then promoted_view (job_of q k) else job_of q k)
