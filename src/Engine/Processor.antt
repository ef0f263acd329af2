-- ===== src/Engine/Processor.antt =====
-- src/engine/node-processor.ts: processNodeJob, routeNodeExecution and processSubWorkflowNode. The lookup of
-- workflows (getWorkflowWithLazyLoad) is part of `Deps`.
pub mod Guards
use Prim.Native.String
use spane.Base.{
  ℕ, zero, suc, ◌+◌, String, Bool, true, false, not, Option, none, some, List, [], ◌∷◌, ◌==◌, ◌&&◌,
  ◌||◌, if◌then◌else◌,
}
use spane.Base.Dict.{Dict, get}
use spane.Types.Json.{Value, Fields, undefined, str, obj, end, field, get_field, prop, is_truthy}
use spane.Types.Workflow.{NodeDefinition, WorkflowDefinition, find_node}
use spane.Types.Execution.{ExecutionResult, ExecutionState, Status, error_result}
use spane.Memory.Executions.{results_of}
use spane.NodeUtils.Retry.{is_some_true}
use spane.Events.{node_started, node_completed, node_failed}
use spane.Engine.World.{
  World, Job, Deps, NodeJobData, job_delayed, emit, record_call, store_result, read_results,
  read_execution,
}
use spane.Engine.Registry.{NodeRegistry, Outcome, returned, thrown}
use spane.Engine.Inputs.{passed_on, value_or, merge_parents}
use spane.Engine.Execution.{execute_regular_node, depth_or_zero, message_or}
use spane.Engine.Delay.{data_result, process_delay_node}
use spane.Engine.Aggregator.{Answer, process_aggregator_node}
use spane.Engine.Flow.{SubWorkflowConfig, FlowAnswer, execute_sub_workflow_with_flow}

-- how a job ends: with an outcome, or moved to the delayed jobs
pub data Processed : Type 0 where
  finished : Outcome → Processed
  moved_to_delayed : Processed

-- What a run is given besides the job: the executors, whether rate limits are native, the answers of
-- BullMQ, the id that a child execution draws, and the fuel.
pub record Setup : Type 0 where
  pub deps : Deps
  pub registry : NodeRegistry
  pub rate_limiting : Bool
  pub children_values : Answer
  pub flow_answer : FlowAnswer
  pub child_id : String
  pub fuel : ℕ

abbrev pub text_or_empty : Value → String
text_or_empty (str s) = s
text_or_empty _ = ""

-- a mapping of target keys to source keys
abbrev pub entries_of : Fields → Dict String
entries_of end = []
entries_of (field k v rest) = (k, text_or_empty v) ∷ entries_of rest

abbrev pub mapping_of : Value → Option (Dict String)
mapping_of (obj fs) = some (entries_of fs)
mapping_of _ = none

-- `node.config as unknown as SubWorkflowConfig`
abbrev pub config_of : NodeDefinition → SubWorkflowConfig
config_of node = record {
  workflow_id = text_or_empty (get_field node.config "workflowId");
  input_mapping = mapping_of (get_field node.config "inputMapping");
  output_mapping = mapping_of (get_field node.config "outputMapping");
  continue_on_fail = is_truthy (get_field node.config "continueOnFail");
}

-- the input of a sub-workflow: a single parent that passes nothing on gives `undefined`
abbrev pub sub_workflow_input : Value → List String → Dict ExecutionResult → Value
sub_workflow_input input [] results = input
sub_workflow_input input (p ∷ []) results =
    if p == "" then input else value_or undefined (passed_on (get results p))
sub_workflow_input input (p ∷ q ∷ ps) results = obj (merge_parents results (p ∷ q ∷ ps) end)

abbrev pub finish : Option (Outcome × World) → Option (Processed × World)
finish none = none
finish (some (o, w)) = some (finished o, w)

abbrev pub finish_result : Option (ExecutionResult × World) → Option (Processed × World)
finish_result none = none
finish_result (some (r, w)) = some (finished (returned r), w)

-- `existingResult && (existingResult.success || existingResult.skipped)`
abbrev pub is_processed : ExecutionResult → Bool
is_processed r = r.success || is_some_true r.skipped

abbrev pub cancelled_result : ExecutionResult
cancelled_result = error_result "Workflow execution cancelled"

module _ (setup : Setup) (job_data : NodeJobData) (job : Job) where
  abbrev pub report_sub_workflow : ExecutionResult → World → World
  report_sub_workflow r w =
      let stored = store_result job_data.execution_id job_data.node_id r w in
      if r.success
      then emit
          (node_completed w.now job_data.node_id job_data.workflow_id job_data.execution_id
            r.output)
          stored
      else emit
          (node_failed w.now job_data.node_id job_data.workflow_id job_data.execution_id
            (message_or "Sub-workflow failed" r.error))
          stored

  abbrev pub reported : Option (ExecutionResult × World) → Option (ExecutionResult × World)
  reported none = none
  reported (some (r, w)) = some (r, report_sub_workflow r w)

  unfoldable pub process_sub_workflow_node :
      NodeDefinition → Option ExecutionState → World → Option (ExecutionResult × World)
  process_sub_workflow_node node found w =
      let config = config_of node in
      let run = reported (
        execute_sub_workflow_with_flow setup.deps setup.fuel setup.child_id setup.flow_answer
          job_data.execution_id job_data.node_id config
          (sub_workflow_input job_data.input_data node.inputs (results_of found))
          (depth_or_zero found)
          (emit (node_started w.now job_data.node_id job_data.workflow_id job_data.execution_id)
            w)) in
      if config.workflow_id == ""
      then some (error_result "Sub-workflow node missing workflowId in config", w)
      else run

  -- the handler of the node's type
  unfoldable pub handle_by_type :
      NodeDefinition → Option ExecutionState → World → Option (Processed × World)
  unfolding process_sub_workflow_node
  handle_by_type node found w =
      let sub_workflow = finish_result (process_sub_workflow_node node found w) in
      let delay = finish_result (process_delay_node setup.deps setup.fuel job_data job node w) in
      let regular = finish (
        execute_regular_node setup.deps setup.fuel job_data job node setup.registry
          setup.rate_limiting found w) in
      if node.type == "sub-workflow"
      then sub_workflow
      else if node.type == "delay"
      then delay
      else regular

  -- behind the idempotency check
  abbrev pub route_by_status :
      NodeDefinition → Option ExecutionState → World → Option (Processed × World)
  route_by_status node none w = handle_by_type node none w
  route_by_status node (some e) w = elim e.status [
    | Status.cancelled ↦ some (finished (returned cancelled_result), w)
    | Status.paused ↦ some (moved_to_delayed, record_call (job_delayed (w.now + 5000)) w)
    | _ ↦ handle_by_type node (some e) w
  ]

  unfoldable pub route_node_execution : NodeDefinition → World → Option (Processed × World)
  unfolding handle_by_type
  route_node_execution node w =
      let (existing, w') = read_results job_data.execution_id (job_data.node_id ∷ []) w in
      let (found, w'') = read_execution job_data.execution_id w' in
      let routed = route_by_status node found w'' in
      elim (get existing job_data.node_id) [
        | none ↦ routed
        | some r ↦ if is_processed r then some (finished (returned r), w') else routed
      ]

  unfoldable pub process_known_node : WorkflowDefinition → World → Option (Processed × World)
  unfolding route_node_execution
  process_known_node workflow w = elim (find_node workflow.nodes job_data.node_id) [
    | none ↦ some (
      finished (
          thrown (
            String.◌++◌ "Node " (
              String.◌++◌ job_data.node_id
                (String.◌++◌ " not found in workflow " job_data.workflow_id)))),
      w,
    )
    | some node ↦ route_node_execution node w
  ]

  abbrev pub root_result : ExecutionResult
  root_result = data_result (obj (field "message" (str "Virtual root node") end))

  abbrev pub is_root : Bool
  is_root = job_data.node_id == "__root__"

  abbrev pub is_aggregator : Bool
  is_aggregator = (job_data.node_id == "__aggregator__") && job_data.is_sub_workflow_aggregator

  unfoldable pub process_workflow_node : World → Option (Processed × World)
  unfolding process_known_node
  process_workflow_node w = elim (setup.deps.workflow_of job_data.workflow_id) [
    | none ↦ some (
      finished (thrown (String.◌++◌ "Workflow " (String.◌++◌ job_data.workflow_id " not found"))),
      w,
    )
    | some workflow ↦ process_known_node workflow w
  ]

  unfoldable pub process_node_job : World → Option (Processed × World)
  unfolding process_workflow_node
  process_node_job w =
      let aggregated =
        finish_result
          (some (process_aggregator_node setup.deps job_data setup.children_values w)) in
      let processed = process_workflow_node w in
      if is_root
      then some (finished (returned root_result), w)
      else if is_aggregator
      then aggregated
      else processed
