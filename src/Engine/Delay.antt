-- ===== src/Engine/Delay.antt =====
-- src/engine/handlers/delay-handler.ts: the two steps of a delay node.
pub mod Steps
pub mod Resumed
use spane.Base.{
  ℕ, zero, suc, ◌+◌, String, Bool, true, false, Option, none, some, List, [], ◌∷◌, ◌==◌,
  if◌then◌else◌,
}
use spane.Base.Int.{ℤ, pos, negsuc}
use spane.Base.Dict.{Dict, get}
use spane.Types.Json.{Value, undefined, obj, end, field, num, bool}
use spane.Types.Workflow.{NodeDefinition}
use spane.Types.Execution.{ExecutionResult, ExecutionState, Status, error_result}
use spane.NodeUtils.Duration.{resolve_duration, validate_duration}
use spane.NodeUtils.JobId.{DelayStep}
use spane.Events.{node_started, node_completed, node_failed, node_delayed}
use spane.Engine.World.{
  World, Job, Deps, NodeJobData, emit, store_result, read_results, read_execution,
}
use spane.Engine.Children.{enqueue_node, EnqueueOptions}
use spane.Engine.Inputs.{passed_on, value_or, merge_parents}
use spane.Engine.Execution.{advance}

-- `validation.error!`, for a check that failed
abbrev pub error_of : Option String → String
error_of none = ""
error_of (some m) = m

-- `now + duration`, for a duration that passed the check
abbrev pub after : ℕ → ℤ → ℤ
after now (pos d) = pos (now + d)
after now (negsuc d) = pos now

abbrev pub is_cancelled : Option ExecutionState → Bool
is_cancelled none = false
is_cancelled (some e) = elim e.status [ Status.cancelled ↦ true | _ ↦ false ]

abbrev pub data_result : Value → ExecutionResult
data_result v = record {
  success = true;
  output = v;
  error = none;
  next_nodes = none;
  skipped = none;
}

abbrev pub delay_data : ℤ → ℤ → Value
delay_data resume_time duration = obj (
    field "delayed" (bool true)
      (field "expectedResumeTime" (num resume_time) (field "duration" (num duration) end)))

module _ (deps : Deps) (fuel : ℕ) (job_data : NodeJobData) (job : Job) (node : NodeDefinition) where
  unfoldable pub handle_initial_step : ℤ → World → ExecutionResult × World
  handle_initial_step duration w =
      let resume_time = after w.now duration in
      let started =
        emit (node_started w.now job_data.node_id job_data.workflow_id job_data.execution_id) w in
      let delayed =
        emit
          (node_delayed w.now job_data.node_id job_data.workflow_id job_data.execution_id
            resume_time)
          started in
      (
        data_result (delay_data resume_time duration),
        enqueue_node deps job_data.execution_id job_data.workflow_id job_data.node_id
            (record {
              delay = some duration;
              delay_step = some DelayStep.resumed;
              delay_start_time = some w.now;
            })
            delayed,
      )

  -- the data that the resumed node passes on
  unfoldable pub resumed_output : List String → World → Value × World
  resumed_output [] w = (job_data.input_data, w)
  resumed_output (p ∷ []) w =
      let (results, w') = read_results job_data.execution_id (p ∷ []) w in
      (
        if p == ""
            then job_data.input_data
            else value_or job_data.input_data (passed_on (get results p)),
        w',
      )
  resumed_output (p ∷ q ∷ ps) w =
      let (results, w') = read_results job_data.execution_id (p ∷ q ∷ ps) w in
      (obj (merge_parents results (p ∷ q ∷ ps) end), w')

  abbrev pub with_result : ExecutionResult → Option World → Option (ExecutionResult × World)
  with_result r none = none
  with_result r (some w) = some (r, w)

  unfoldable pub complete_resumed : Value × World → Option (ExecutionResult × World)
  complete_resumed (output, w) = with_result (data_result output) (
      advance deps fuel job_data job node none (
        emit
          (node_completed w.now job_data.node_id job_data.workflow_id job_data.execution_id output)
          (store_result job_data.execution_id job_data.node_id (data_result output) w)))

  unfoldable pub handle_resumed_step : World → Option (ExecutionResult × World)
  unfolding complete_resumed resumed_output
  handle_resumed_step w =
      let (found, w') = read_execution job_data.execution_id w in
      let completed = complete_resumed (resumed_output node.inputs w') in
      if is_cancelled found
      then some (error_result "Workflow execution cancelled", w')
      else completed

  -- `data.delayStep || 'initial'`; the type leaves no third step
  abbrev pub process_step : Option DelayStep → ℤ → World → Option (ExecutionResult × World)
  process_step none duration w = some (handle_initial_step duration w)
  process_step (some DelayStep.initial) duration w = some (handle_initial_step duration w)
  process_step (some DelayStep.resumed) duration w = handle_resumed_step w

  abbrev pub process_valid : Option ℤ → World → Option (ExecutionResult × World)
  process_valid none w = none
  process_valid (some d) w = process_step job_data.delay_step d w

  unfoldable pub process_delay_node : World → Option (ExecutionResult × World)
  unfolding handle_resumed_step handle_initial_step
  process_delay_node w =
      let duration = resolve_duration (some node.config) in
      let check = validate_duration duration in
      let error = error_of check.error in
      let processed = process_valid duration w in
      if check.valid
      then processed
      else some (
        error_result error,
        emit (node_failed w.now job_data.node_id job_data.workflow_id job_data.execution_id error)
            w,
      )
