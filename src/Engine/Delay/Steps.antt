-- ===== src/Engine/Delay/Steps.antt =====
-- src/engine/handlers/delay-handler.ts: what the first job of a delay node does.
use spane.Base.{
  ℕ, ◌+◌, String, ◌≡◌, refl, ◌∙◌, ap, Bool, true, false, if_cases, Option, none, some, List, [],
  ◌∷◌, ◌++◌, append_assoc, arith, ◌*◌,
}
use spane.Base.Int.{ℤ, pos, negsuc, scale}
use spane.Types.Json.{Fields, get_field}
use spane.Types.Workflow.{NodeDefinition}
use spane.Types.Execution.{ExecutionResult, error_result}
use spane.NodeUtils.Duration.{resolve_duration, validate_duration, as_number, first_number}
use spane.NodeUtils.JobId.{DelayStep}
use spane.Events.{node_started, node_failed, node_delayed}
use spane.Engine.World.{World, Call, Job, Deps, NodeJobData, progress, job_added, read_results}
use spane.Engine.Children.{enqueue_node, child_job, EnqueueOptions}
use spane.Engine.Children.Expected.{resumed_job, child_job-resumed_job}
use spane.Engine.Inputs.{build_node_input_data}
use spane.Engine.Delay.{handle_initial_step, resumed_output, process_step, process_delay_node}

abbrev pub is_resumed : Option DelayStep → Bool
is_resumed (some DelayStep.resumed) = true
is_resumed (some DelayStep.initial) = false
is_resumed none = false

-- a duration that a delay node takes: one of at least 0
abbrev pub is_delay : Option ℤ → Bool
is_delay none = false
is_delay (some (pos d)) = true
is_delay (some (negsuc d)) = false

-- the first number among the configured milliseconds, seconds and minutes, in milliseconds
abbrev pub asked_duration : Fields → Option ℤ
asked_duration config = elim (as_number (get_field config "duration")) [
  | some ms ↦ some ms
  | none ↦ elim (as_number (get_field config "durationSeconds")) [
    | some s ↦ some (scale s 1000)
    | none ↦ elim (as_number (get_field config "durationMinutes")) [
      | some m ↦ some (scale m (60 * 1000))
      | none ↦ none
    ]
  ]
]

resolve_duration-asked_duration :
    (config : Fields) → resolve_duration (some config) ≡ asked_duration config
unfolding resolve_duration
resolve_duration-asked_duration config =
    first (as_number (get_field config "duration")) (as_number (get_field config "durationSeconds"))
      (as_number (get_field config "durationMinutes"))
  where
    first :
        (a b c : Option ℤ)
        → first_number a b c ≡ elim a [
          | some ms ↦ some ms
          | none ↦ elim b [
            | some s ↦ some (scale s 1000)
            | none ↦ elim c [ some m ↦ some (scale m (60 * 1000)) | none ↦ none ]
          ]
        ]
    first (some a) b c = refl
    first none (some b) c = refl
    first none none (some c) = refl
    first none none none = refl

-- the options of the job that is to resume the node
abbrev resume_after : ℕ → ℕ → EnqueueOptions
resume_after now d = record {
  delay = some (pos d);
  delay_step = some DelayStep.resumed;
  delay_start_time = some now;
}

-- the calls of the first job, for the duration that the configuration gives
abbrev pub first_calls : Deps → NodeJobData → ℕ → Option ℤ → List Call
first_calls deps j now (some (pos d)) =
    progress (node_started now j.node_id j.workflow_id j.execution_id)
    ∷ progress (node_delayed now j.node_id j.workflow_id j.execution_id (pos (now + d)))
    ∷ job_added (resumed_job deps j.execution_id j.workflow_id j.node_id now d)
    ∷ []
first_calls deps j now (some (negsuc d)) =
    progress
      (node_failed now j.node_id j.workflow_id j.execution_id "Delay duration must be positive")
    ∷ []
first_calls deps j now none =
    progress (
      node_failed now j.node_id j.workflow_id j.execution_id
        "Delay node missing duration configuration")
    ∷ []

-- The resumed delay node passes on exactly what a regular node with the same parents gets as its input.
pub resumed_output-build_node_input_data :
    (deps : Deps) (fuel : ℕ) (job_data : NodeJobData) (job : Job) (node : NodeDefinition)
    (inputs : List String) (w : World)
    → (resumed_output deps fuel job_data job node inputs w).0
      ≡ build_node_input_data job_data.input_data inputs
          (read_results job_data.execution_id inputs w).0
unfolding resumed_output build_node_input_data
resumed_output-build_node_input_data deps fuel job_data job node [] w = refl
resumed_output-build_node_input_data deps fuel job_data job node (p ∷ []) w = refl
resumed_output-build_node_input_data deps fuel job_data job node (p ∷ q ∷ ps) w = refl

pub valid-pos : (d : ℕ) → (validate_duration (some (pos d))).valid ≡ true
unfolding validate_duration
valid-pos d = ground arith

module _ (deps : Deps) (fuel : ℕ) (job_data : NodeJobData) (job : Job) (node : NodeDefinition)
    (w : World) where
  -- a run of the first job, for the duration `o`
  abbrev pub FirstRun : Option ℤ → Option (ExecutionResult × World) → Type 0
  FirstRun o ran =
      (r : ExecutionResult) × (w' : World) × (ran ≡ some (r, w'))
      × (w'.store ≡ w.store)
      × (w'.calls ≡ w.calls ++ first_calls deps job_data w.now o)
      × (r.success ≡ is_delay o)

  initial_step-FirstRun :
      (d : ℕ)
      → FirstRun (some (pos d)) (some (handle_initial_step deps fuel job_data job node (pos d) w))
  unfolding handle_initial_step enqueue_node validate_duration
  initial_step-FirstRun d =
      let started =
        progress (node_started w.now job_data.node_id job_data.workflow_id job_data.execution_id) in
      let delayed = progress (
        node_delayed w.now job_data.node_id job_data.workflow_id job_data.execution_id
          (pos (w.now + d))) in
      let added = job_added (
        child_job deps job_data.execution_id job_data.workflow_id job_data.node_id
          (resume_after w.now d)) in
      (
        _,
        _,
        refl,
        refl,
        append_assoc (w.calls ++ started ∷ []) (delayed ∷ []) (added ∷ [])
            ∙ append_assoc w.calls (started ∷ []) (delayed ∷ added ∷ [])
            ∙ ap (λ j. w.calls ++ started ∷ delayed ∷ job_added j ∷ [])
                (child_job-resumed_job deps job_data.execution_id job_data.workflow_id
                  job_data.node_id w.now d),
        refl,
      )

  process_step-FirstRun :
      (d : ℕ) (step : Option DelayStep)
      → is_resumed step ≡ false
      → FirstRun (some (pos d)) (process_step deps fuel job_data job node step (pos d) w)
  process_step-FirstRun d none h = initial_step-FirstRun d
  process_step-FirstRun d (some DelayStep.initial) h = initial_step-FirstRun d
  process_step-FirstRun d (some DelayStep.resumed) h = cc

  process-FirstRun :
      (o : Option ℤ)
      → resolve_duration (some node.config) ≡ o
      → is_resumed job_data.delay_step ≡ false
      → FirstRun o (process_delay_node deps fuel job_data job node w)
  unfolding process_delay_node validate_duration error_result
  process-FirstRun none e h = rw (e, process_delay_node) (_, _, refl, refl, refl, refl)
  process-FirstRun (some (negsuc d)) e h = rw (e, process_delay_node) (_, _, refl, refl, refl, refl)
  process-FirstRun (some (pos d)) e h =
      let valid = valid-pos d in
      rw (e, process_delay_node)
        (if_cases (FirstRun (some (pos d))) (validate_duration (some (pos d))).valid _ _
          (λ g. process_step-FirstRun d job_data.delay_step h) (λ g. cc))

-- The first job of a delay node ends, and leaves the store untouched whatever the duration is: it succeeds
-- exactly for a duration of at least 0, for which it reports the start and the time of resumption and
-- adds one job, with that delay, for the resumption of the node; for any other it reports the failure
-- and adds none. The duration is the number configured as milliseconds, else as seconds, else as minutes.
pub process_delay_node_first :
    (deps : Deps) (fuel : ℕ) (job_data : NodeJobData) (job : Job) (node : NodeDefinition)
    (w : World)
    → is_resumed job_data.delay_step ≡ false
    → (r : ExecutionResult) × (w' : World) × (process_delay_node deps fuel job_data job node w
        ≡ some (r, w'))
      × (w'.store ≡ w.store)
      × (w'.calls ≡ w.calls ++ first_calls deps job_data w.now (asked_duration node.config))
      × (r.success ≡ is_delay (asked_duration node.config))
process_delay_node_first deps fuel job_data job node w h =
    process-FirstRun deps fuel job_data job node w (asked_duration node.config)
      (resolve_duration-asked_duration node.config) h
