-- ===== src/Control/Schedules.antt =====
-- src/engine/workflow-engine.ts: registerWorkflow, registerScheduleWithUpsert and removeWorkflowSchedulers.
-- The job schedulers of the workflow queue are part of BullMQ, which is not part of the repository:
-- they are a parameter, with the documented behaviour as laws.
pub mod Registered
pub mod Removed
use Prim.Native.String
use text.Mathlib.Text.{starts_with}
use spane.Base.{
  ℕ, String, ◌≡◌, Bool, true, false, Option, none, some, List, [], ◌∷◌, map, select, ◌==◌, ◌||◌,
  suc, if◌then◌else◌,
}
use spane.Types.Workflow.{WorkflowDefinition, WorkflowTrigger, webhook, schedule}
use spane.Graph.Errors.{ValidationError, join}
use spane.Graph.Validate.{validate_workflow, is_error}
use spane.Errors.{Failure, other_error}
use spane.Control.Services.{WorkflowCache, WorkflowStore, Ended, ended, raised}

-- what a scheduler repeats: the pattern, the time zone and the workflow
pub record Schedule : Type 0 where
  pub pattern : String
  pub timezone : Option String
  pub workflow_id : String

abbrev pub lists : String → List (Option String) → Bool
lists id [] = false
lists id (none ∷ ids) = lists id ids
lists id (some j ∷ ids) = j == id || lists id ids

-- `upsert` answers the message of the error with which it throws, if it does. `scheduler_ids` is the `id`
-- of each entry that `getJobSchedulers` answers, `none` where the entry has no `id`.
pub record WorkflowQueue : Type 1 where
  pub Schedulers : Type 0
  pub schedule_of : Schedulers → String → Option Schedule
  pub scheduler_ids : Schedulers → List (Option String)
  pub upsert : String → Schedule → Schedulers → Option String × Schedulers
  pub remove : String → Schedulers → Schedulers
  pub upserted :
      (id : String) (s : Schedule) (q : Schedulers) (k : String)
      → (upsert id s q).0 ≡ none
      → schedule_of (upsert id s q).1 k ≡ (if id == k then some s else schedule_of q k)
  pub removed :
      (id : String) (q : Schedulers) (k : String)
      → schedule_of (remove id q) k ≡ (if id == k then none else schedule_of q k)

-- `schedule:${workflowId}:` and `schedule:${workflowId}:${cron}`
abbrev pub schedule_prefix : String → String
schedule_prefix workflow_id = String.◌++◌ "schedule:" (String.◌++◌ workflow_id ":")

abbrev pub scheduler_id : String → String → String
scheduler_id workflow_id cron =
    String.◌++◌ "schedule:" (String.◌++◌ workflow_id (String.◌++◌ ":" cron))

-- `...(timezone && { tz: timezone })`
abbrev pub schedule_for : String → String → Option String → Schedule
schedule_for workflow_id cron timezone = record {
  pattern = cron;
  timezone = elim timezone [ none ↦ none | some tz ↦ if tz == "" then none else some tz ];
  workflow_id = workflow_id;
}

-- `schedulerId && schedulerId.startsWith(...)`
unfoldable pub is_matching : String → String → Bool
is_matching workflow_id id =
    if id == "" then false else starts_with id (schedule_prefix workflow_id)

-- what registerWorkflow works on
pub record Registration (Schedulers Cache Saved : Type 0) : Type 0 where
  pub schedulers : Schedulers
  pub cache : Cache
  pub saved : Saved
  pub now : ℕ

abbrev pub register_error : String → String → Failure
register_error workflow_id message = other_error (
    String.◌++◌ "Failed to register schedule trigger for workflow "
      (String.◌++◌ workflow_id (String.◌++◌ ": " message)))

-- the messages of the errors, without those of the warnings
abbrev pub error_messages : WorkflowDefinition → List String
error_messages workflow =
    map (λ (e : ValidationError). e.message) (select is_error (validate_workflow workflow).errors)

abbrev pub triggers_of : Option (List WorkflowTrigger) → List WorkflowTrigger
triggers_of none = []
triggers_of (some ts) = ts

module _ (workflow_queue : WorkflowQueue) where
  open workflow_queue use {Schedulers, scheduler_ids, upsert, remove}

  unfoldable pub register_schedule_with_upsert :
      String → String → Option String → Schedulers → Option String × Schedulers
  register_schedule_with_upsert workflow_id cron timezone q =
      upsert (scheduler_id workflow_id cron) (schedule_for workflow_id cron timezone) q

  -- the loop over the triggers, which ends with the first error
  unfoldable pub register_triggers :
      String → List WorkflowTrigger → Schedulers → Option Failure × Schedulers
  register_triggers workflow_id [] q = (none, q)
  register_triggers workflow_id (webhook path method ∷ ts) q = register_triggers workflow_id ts q
  register_triggers workflow_id (schedule cron timezone ∷ ts) q =
      let (failed, q') = register_schedule_with_upsert workflow_id cron timezone q in
      let rest = register_triggers workflow_id ts q' in
      elim failed [ some message ↦ (some (register_error workflow_id message), q') | none ↦ rest ]

  -- the loop over the schedulers
  unfoldable pub remove_matching : String → List (Option String) → Schedulers → ℕ → ℕ × Schedulers
  remove_matching workflow_id [] q n = (n, q)
  remove_matching workflow_id (none ∷ ids) q n = remove_matching workflow_id ids q n
  remove_matching workflow_id (some id ∷ ids) q n =
      remove_matching workflow_id ids (if is_matching workflow_id id then remove id q else q)
        (if is_matching workflow_id id then suc n else n)

  unfoldable pub remove_workflow_schedulers : String → Schedulers → ℕ × Schedulers
  unfolding remove_matching is_matching
  remove_workflow_schedulers workflow_id q = remove_matching workflow_id (scheduler_ids q) q 0

module _ (workflow_queue : WorkflowQueue) (workflow_cache : WorkflowCache)
    (workflows : WorkflowStore) where
  open workflow_queue use {Schedulers}
  open workflow_cache use {Cache, set}
  open workflows use {Saved, save}

  abbrev pub State : Type 0
  State = Registration Schedulers Cache Saved

  abbrev pub answer_triggers : State → Option Failure × Schedulers → Ended (Unit {0}) × State
  answer_triggers st (none, q) = (ended tt, record st { schedulers = q })
  answer_triggers st (some f, q) = (raised f, record st { schedulers = q })

  -- A failure to save the workflow is logged and no more.
  unfoldable pub register_workflow :
      WorkflowDefinition → Option String → State → Ended (Unit {0}) × State
  unfolding register_triggers
  register_workflow workflow change_notes st =
      let st' = record st {
        saved = save workflow change_notes st.saved;
        cache = set st.now workflow.id workflow st.cache;
      } in
      elim (error_messages workflow) [
        | m ∷ ms ↦ (
          raised (other_error (String.◌++◌ "Workflow validation failed: " (join "; " (m ∷ ms)))),
          st,
        )
        | [] ↦ answer_triggers st' (
            register_triggers workflow_queue workflow.id (triggers_of workflow.triggers)
              st'.schedulers)
      ]
