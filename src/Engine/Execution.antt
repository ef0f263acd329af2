-- ===== src/Engine/Execution.antt =====
-- src/engine/handlers/execution-handler.ts: executeRegularNode and handleExecutionError. The calls of
-- BullMQ and of the store do not fail here; the executor may.
pub mod Advance
pub mod Ending
use Prim.Native.String
use spane.Base.{
  ℕ, zero, suc, String, Bool, true, false, Option, none, some, List, [], ◌∷◌, ◌==◌, ◌&&◌, leb,
  if◌then◌else◌,
}
use spane.Base.Dict.{Dict, get}
use spane.Types.Json.{Value, get_field, prop, is_truthy}
use spane.Types.Workflow.{NodeDefinition}
use spane.Types.Execution.{ExecutionResult, ExecutionState}
use spane.NodeUtils.Retry.{create_continue_on_fail_result}
use spane.Events.{node_started, node_completed, node_failed}
use spane.Engine.World.{World, Job, Deps, NodeJobData, emit, store_result, read_results}
use spane.Engine.Children.{check_and_enqueue_children}
use spane.Engine.Completion.{check_workflow_completion, handle_workflow_error}
use spane.Engine.Registry.{
  NodeRegistry, get_executor, ExecutionContext, Executor, Outcome, returned, thrown,
}
use spane.Engine.Inputs.{build_node_input_data}

-- what an execution says of itself, with the defaults for one that is not found
abbrev pub results_or_none : Option ExecutionState → Option (Dict ExecutionResult)
results_or_none none = none
results_or_none (some e) = some e.node_results

abbrev pub parent_or_none : Option ExecutionState → Option String
parent_or_none none = none
parent_or_none (some e) = e.parent_execution_id

abbrev pub depth_or_zero : Option ExecutionState → ℕ
depth_or_zero none = zero
depth_or_zero (some e) = e.depth

-- `message || fallback`
abbrev pub message_or : String → Option String → String
message_or fallback none = fallback
message_or fallback (some m) = if m == "" then fallback else m

-- `job.opts.attempts || 1`
abbrev pub max_attempts_of : Job → ℕ
max_attempts_of job = elim job.attempts [ none ↦ 1 | some n ↦ elim n [ zero ↦ 1 | suc k ↦ suc k ] ]

-- `(node.config as any).retryPolicy?.continueOnFail`
abbrev pub continues_on_fail : NodeDefinition → Bool
continues_on_fail node = is_truthy (prop (get_field node.config "retryPolicy") "continueOnFail")

module _ (deps : Deps) (fuel : ℕ) (job_data : NodeJobData) (job : Job) (node : NodeDefinition) where
  abbrev enqueue_outputs : Option (List String) → World → Option World
  enqueue_outputs next_nodes w = elim node.outputs [
    | [] ↦ some w
    | c ∷ cs ↦
        check_and_enqueue_children deps job_data.execution_id job_data.workflow_id (some job) fuel
          node next_nodes w
  ]

  -- the end of a node that counts as a success: its children, then the check of the whole execution
  unfoldable pub advance : Option (List String) → World → Option World
  advance next_nodes w = elim (enqueue_outputs next_nodes w) [
    | none ↦ none
    | some w' ↦
        some
          (check_workflow_completion job_data.execution_id job_data.workflow_id (some job) deps w')
  ]

  -- an outcome, once the children are seen to; `none`: the fuel is gone
  abbrev pub with_outcome : Outcome → Option World → Option (Outcome × World)
  with_outcome o none = none
  with_outcome o (some w) = some (o, w)

  unfoldable pub handle_execution_error : String → World → Option (Outcome × World)
  unfolding advance
  handle_execution_error message w =
      let safe = create_continue_on_fail_result message in
      let goes_on = advance safe.next_nodes (
        emit
          (node_completed w.now job_data.node_id job_data.workflow_id job_data.execution_id
            safe.output)
          (store_result job_data.execution_id job_data.node_id safe w)) in
      if continues_on_fail node && leb (max_attempts_of job) job.attempts_made
      then with_outcome (returned safe) goes_on
      else some (
        thrown message,
        emit (node_failed w.now job_data.node_id job_data.workflow_id job_data.execution_id message)
            w,
      )

  -- behind `executor.execute(context)`
  unfoldable pub finish_node : Outcome → World → Option (Outcome × World)
  unfolding advance handle_execution_error
  finish_node (thrown message) w = handle_execution_error message w
  finish_node (returned r) w =
      let stored = store_result job_data.execution_id job_data.node_id r w in
      let message = message_or "Node execution failed" r.error in
      let goes_on = advance r.next_nodes (
        emit
          (node_completed w.now job_data.node_id job_data.workflow_id job_data.execution_id
            r.output)
          stored) in
      if r.success
      then with_outcome (returned r) goes_on
      else some (
        returned r,
        handle_workflow_error job_data.execution_id job_data.workflow_id (some job) message (
            emit
              (node_failed w.now job_data.node_id job_data.workflow_id job_data.execution_id
                message)
              stored),
      )

  abbrev pub context_of : Bool → Option ExecutionState → Dict ExecutionResult → ExecutionContext
  context_of rate_limiting found previous = record {
    workflow_id = job_data.workflow_id;
    execution_id = job_data.execution_id;
    node_id = job_data.node_id;
    input_data = build_node_input_data job_data.input_data node.inputs previous;
    node_config = node.config;
    previous_results = previous;
    all_node_results = results_or_none found;
    parent_execution_id = parent_or_none found;
    depth = depth_or_zero found;
    rate_limit = rate_limiting;
  }

  unfoldable pub execute_regular_node :
      NodeRegistry → Bool → Option ExecutionState → World → Option (Outcome × World)
  unfolding finish_node
  execute_regular_node registry rate_limiting found w = elim (get_executor registry node.type) [
    | none ↦ some (thrown (String.◌++◌ "No executor registered for node type: " node.type), w)
    | some executor ↦
        let (previous, w') = read_results job_data.execution_id node.inputs w in
        finish_node (executor (context_of rate_limiting found previous)) (
          emit (node_started w'.now job_data.node_id job_data.workflow_id job_data.execution_id) w')
  ]
