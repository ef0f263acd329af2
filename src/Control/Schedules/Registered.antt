-- ===== src/Control/Schedules/Registered.antt =====
-- src/engine/workflow-engine.ts: what registerWorkflow leaves.
use spane.Base.{
  String, ◌≡◌, refl, sym, ◌∙◌, ap, inl, inr, Bool, true, false, Option, none, some, Option-cases,
  List, [], ◌∷◌, List-cases, map, select, length, eqb, ◌==◌, if◌then◌else◌, arith,
}
use spane.Types.Workflow.{WorkflowDefinition, WorkflowTrigger, webhook, schedule}
use spane.Graph.Errors.{ValidationError, join}
use spane.Graph.Validate.{validate_workflow, collected_errors, is_valid_workflow, is_error}
use spane.Errors.{other_error}
use Prim.Native.String
use spane.Control.Services.{WorkflowCache, WorkflowStore, Ended, ended, raised}
use spane.Control.Schedules.{
  Schedule, WorkflowQueue, scheduler_id, schedule_for, register_schedule_with_upsert,
  register_triggers, register_workflow, register_error, error_messages, triggers_of, State,
  answer_triggers,
}

-- the schedule that the triggers of a workflow set for a scheduler: that of the last trigger with its id
abbrev pub planned : String → List WorkflowTrigger → String → Option Schedule
planned workflow_id [] k = none
planned workflow_id (webhook path method ∷ ts) k = planned workflow_id ts k
planned workflow_id (schedule cron timezone ∷ ts) k = elim (planned workflow_id ts k) [
  | some s ↦ some s
  | none ↦
      if String.◌++◌ "schedule:" (String.◌++◌ workflow_id (String.◌++◌ ":" cron)) == k
      then some (schedule_for workflow_id cron timezone)
      else none
]

abbrev pub throws {ℓ} : {A : Type ℓ} → Ended A → Bool
throws (ended a) = false
throws (raised f) = true

abbrev pub is_given {ℓ} : {A : Type ℓ} → Option A → Bool
is_given none = false
is_given (some a) = true

abbrev pub or_before : Option Schedule → Option Schedule → Option Schedule
or_before none before = before
or_before (some s) before = some s

messages_of :
    (errors : List ValidationError)
    → eqb (length (select is_error errors)) 0 ≡ true
    → map (λ (e : ValidationError). e.message) (select is_error errors) ≡ []
messages_of errors h = elim (List-cases (select is_error errors)) [
  | inl e ↦ rw e refl
  | inr (x, xs, e) ↦ let n = ap (length {A = ValidationError}) e in absurd (ground arith)
]

messages_left :
    (errors : List ValidationError)
    → eqb (length (select is_error errors)) 0 ≡ false
    → (m : String) × (ms : List String) × (map
          (λ (e : ValidationError). e.message)
          (select is_error errors)
        ≡ m ∷ ms)
messages_left errors h = elim (List-cases (select is_error errors)) [
  | inl e ↦ let n = ap (length {A = ValidationError}) e in absurd (ground arith)
  | inr (x, xs, e) ↦ rw e (_, _, refl)
]

before :
    (later : Option Schedule) (b : Bool) (s : Schedule) (o : Option Schedule)
    → or_before later (if b then some s else o)
      ≡ or_before (elim later [ some t ↦ some t | none ↦ if b then some s else none ]) o
before none true s o = refl
before none false s o = refl
before (some t) b s o = refl

module _ (workflow_queue : WorkflowQueue) where
  open workflow_queue use {Schedulers, schedule_of, upsert, upserted}

  upsert_one :
      (w cron : String) (timezone : Option String) (q : Schedulers) (k : String)
      → (register_schedule_with_upsert workflow_queue w cron timezone q).0 ≡ none
      → schedule_of (register_schedule_with_upsert workflow_queue w cron timezone q).1 k ≡ (
          if scheduler_id w cron == k then some (schedule_for w cron timezone) else schedule_of q k)
  unfolding register_schedule_with_upsert
  upsert_one w cron timezone q k h =
      upserted (scheduler_id w cron) (schedule_for w cron timezone) q k h

  pub scheduled :
      (workflow_id : String) (ts : List WorkflowTrigger) (q : Schedulers) (k : String)
      → (register_triggers workflow_queue workflow_id ts q).0 ≡ none
      → schedule_of (register_triggers workflow_queue workflow_id ts q).1 k
        ≡ or_before (planned workflow_id ts k) (schedule_of q k)
  unfolding register_triggers
  scheduled w [] q k h = refl
  scheduled w (webhook path method ∷ ts) q k h = scheduled w ts q k h
  scheduled w (schedule cron timezone ∷ ts) q k h =
      let step = register_schedule_with_upsert workflow_queue w cron timezone q in
      elim (Option-cases step.0) [
        | inl e ↦
            let rest : (register_triggers workflow_queue w ts step.1).0 ≡ none =
              sym (rw (e, register_triggers) refl) ∙ h in
            rw (e, register_triggers)
              (scheduled w ts step.1 k rest
                ∙ ap (or_before (planned w ts k)) (upsert_one w cron timezone q k e)
                ∙ before (planned w ts k) (scheduler_id w cron == k) _ _)
        | inr (m, e) ↦
            let failed : (register_triggers workflow_queue w (schedule cron timezone ∷ ts) q).0
                ≡ some (register_error w m) =
              rw (e, register_triggers) refl in
            cc
      ]

module _ (workflow_queue : WorkflowQueue) (workflow_cache : WorkflowCache)
    (workflows : WorkflowStore) where
  open workflow_queue use {schedule_of}
  open workflow_cache use {get, got_set}
  open workflows use {save}

  -- A workflow that is not valid is refused with its errors, and nothing is saved, cached or scheduled.
  pub register_workflow-invalid :
      (workflow : WorkflowDefinition) (notes : Option String)
      (st : State workflow_queue workflow_cache workflows)
      → is_valid_workflow workflow ≡ false
      → register_workflow workflow_queue workflow_cache workflows workflow notes st ≡ (
        raised (
            other_error
              (String.◌++◌ "Workflow validation failed: " (join "; " (error_messages workflow)))),
        st,
      )
  unfolding register_workflow is_valid_workflow validate_workflow
  register_workflow-invalid workflow notes st h =
      let (m, ms, e) = messages_left (collected_errors workflow) h in rw (e, register_workflow) refl

  -- The registration of a valid workflow saves and caches it, also where it then fails for a schedule.
  pub register_workflow-valid :
      (workflow : WorkflowDefinition) (notes : Option String)
      (st : State workflow_queue workflow_cache workflows)
      → is_valid_workflow workflow ≡ true
      → (let ran = register_workflow workflow_queue workflow_cache workflows workflow notes st in
          (get st.now workflow.id ran.1.cache ≡ some workflow)
          × (ran.1.saved ≡ save workflow notes st.saved))
  unfolding register_workflow is_valid_workflow validate_workflow
  register_workflow-valid workflow notes st h =
      let set_up = got_set st.now workflow.id workflow st.cache in
      elim (Option-cases
        (register_triggers workflow_queue workflow.id (triggers_of workflow.triggers)
          st.schedulers).0) [
            | inl e ↦
                rw (messages_of (collected_errors workflow) h, register_workflow)
                  (rw (e, answer_triggers) (set_up, refl))
            | inr (f, e) ↦
                rw (messages_of (collected_errors workflow) h, register_workflow)
                  (rw (e, answer_triggers) (set_up, refl))
          ]
