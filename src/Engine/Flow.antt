-- ===== src/Engine/Flow.antt =====
-- src/engine/handlers/subworkflow-handler.ts: buildFlowTreeFromEntryNodes and executeSubWorkflowWithFlow.
-- The recursion over the inputs of a node takes fuel: on a cycle the source's recursion has no end.
pub mod Returns
use Prim.Native.String
use spane.Base.{
  ℕ, zero, suc, String, Bool, true, false, not, Option, none, some, List, [], ◌∷◌, select,
  if◌then◌else◌,
}
use spane.Base.Dict.{Dict, get, put}
use spane.Types.Json.{Value, undefined, str, obj, end, field}
use spane.Types.Workflow.{NodeDefinition, WorkflowDefinition}
use spane.Types.Execution.{ExecutionResult, error_result}
use spane.Memory.Executions.{create_execution, update_execution_metadata}
use spane.NodeUtils.Mapping.{apply_input_mapping}
use spane.Graph.Cycle.{node_map}
use spane.Engine.World.{
  World, Deps, NodeJobData, FlowJob, FlowJobs, flow_job, no_jobs, add_job, flow_added, record_call,
  read_execution,
}
use spane.Engine.Delay.{data_result}
use spane.Engine.Aggregator.{workflow_id_or_unknown}

-- src/types.ts: SubWorkflowConfig
pub record SubWorkflowConfig : Type 0 where
  pub workflow_id : String
  pub input_mapping : Option (Dict String)
  pub output_mapping : Option (Dict String)
  pub continue_on_fail : Bool

abbrev pub is_empty {ℓ} : {A : Type ℓ} → List A → Bool
is_empty [] = true
is_empty (x ∷ xs) = false

abbrev pub node_data : String → String → String → Value → NodeJobData
node_data execution_id workflow_id node_id input_data = record {
  execution_id = execution_id;
  workflow_id = workflow_id;
  node_id = node_id;
  input_data = input_data;
  delay_step = none;
  delay_start_time = none;
  is_sub_workflow_aggregator = false;
  parent_execution_id = none;
  parent_node_id = none;
  output_mapping = none;
}

-- the jobs that are built, with `addedToFlow` as the call leaves it; `none`: the fuel is gone
abbrev pub Built : Type 0 → Type 0
Built A = Option (A × Dict FlowJob)

module _ (workflow : WorkflowDefinition) (execution_id : String) (input : Value)
    (continue_on_fail : Bool) where
  -- the job of a node, once the jobs of its inputs are built
  abbrev pub node_job : NodeDefinition → FlowJobs → FlowJob
  node_job node children =
      flow_job "process-node"
        (node_data execution_id workflow.id node.id
          (if is_empty node.inputs then input else undefined))
        (String.◌++◌ execution_id (String.◌++◌ "-" node.id)) (some (not continue_on_fail))
        (some continue_on_fail) children

  abbrev pub keep_job : NodeDefinition → Built FlowJobs → Built FlowJob
  keep_job node none = none
  keep_job node (some (children, added)) =
      some (node_job node children, put added node.id (node_job node children))

  abbrev pub prepend : FlowJob → Built FlowJobs → Built FlowJobs
  prepend j none = none
  prepend j (some (js, added)) = some (add_job j js, added)

  -- the loop over `node.inputs`; inputs that are no node are left out
  unfoldable pub build_inputs :
      (NodeDefinition → Dict FlowJob → Built FlowJob) → List String → Dict FlowJob → Built FlowJobs
  build_inputs build [] added = some (no_jobs, added)
  build_inputs build (i ∷ rest) added = elim (get (node_map workflow.nodes) i) [
    | none ↦ build_inputs build rest added
    | some n ↦ elim (build n added) [
      | none ↦ none
      | some (j, added') ↦ prepend j (build_inputs build rest added')
    ]
  ]

  unfoldable pub build_node_flow : ℕ → NodeDefinition → Dict FlowJob → Built FlowJob
  unfolding build_inputs
  build_node_flow zero node added = none
  build_node_flow (suc fuel) node added = elim (get added node.id) [
    | some j ↦ some (j, added)
    | none ↦ keep_job node (build_inputs (build_node_flow fuel) node.inputs added)
  ]

  -- `rootNodes.map(buildNodeFlow)`
  unfoldable pub build_roots : ℕ → List NodeDefinition → Dict FlowJob → Built FlowJobs
  build_roots fuel [] added = some (no_jobs, added)
  build_roots fuel (n ∷ ns) added = elim (build_node_flow fuel n added) [
    | none ↦ none
    | some (j, added') ↦ prepend j (build_roots fuel ns added')
  ]

  abbrev pub root_nodes : List NodeDefinition
  root_nodes =
      let final_nodes = select (λ n. is_empty n.outputs) workflow.nodes in
      if is_empty final_nodes then workflow.nodes else final_nodes

  unfoldable pub build_flow_tree : ℕ → Option FlowJobs
  unfolding build_roots build_node_flow
  build_flow_tree fuel = elim (build_roots fuel root_nodes []) [
    | none ↦ none
    | some (js, added) ↦ some js
  ]

-- what `flowProducer.add` answers: the id of the flow's job, or an error
pub data FlowAnswer : Type 0 where
  added_as : (flow_job_id : String) → FlowAnswer
  refused : (message : String) → FlowAnswer

abbrev pub started_data : String → String → Value
started_data flow_job_id child_id = obj (
    field "flowJobId" (str flow_job_id) (
      field "childExecutionId" (str child_id)
        (field "message" (str "Sub-workflow started via FlowProducer") end)))

abbrev pub answered : String → FlowAnswer → ExecutionResult
answered child_id (added_as flow_job_id) = data_result (started_data flow_job_id child_id)
answered child_id (refused message) = error_result message

-- the aggregator's job, above the jobs of the nodes
abbrev pub aggregator_job : String → String → SubWorkflowConfig → String → FlowJobs → FlowJob
aggregator_job parent_id parent_node_id config child_id children =
    flow_job "sub-workflow-aggregator"
      (record (node_data child_id config.workflow_id "__aggregator__" undefined) {
        is_sub_workflow_aggregator = true;
        parent_execution_id = some parent_id;
        parent_node_id = some parent_node_id;
        output_mapping = config.output_mapping;
      })
      (String.◌++◌ child_id "-aggregator") none none children

module _ (deps : Deps) (fuel : ℕ) (child_id : String) (answer : FlowAnswer) where
  -- the child execution, with its parent in the metadata
  abbrev pub create_child : String → String → SubWorkflowConfig → Value → ℕ → World → World
  create_child parent_id parent_node_id config input depth w =
      let created = record w {
        store =
            create_execution w.now child_id config.workflow_id (some parent_id) (suc depth) input
              w.store;
      } in
      let (parent, read) = read_execution parent_id created in
      record read {
        store =
            update_execution_metadata read.now child_id
              (some (
                field "parentNodeId" (str parent_node_id)
                  (field "parentWorkflowId" (str (workflow_id_or_unknown parent)) end)))
              read.store;
      }

  unfoldable pub execute_sub_workflow_with_flow :
      String → String → SubWorkflowConfig → Value → ℕ → World → Option (ExecutionResult × World)
  unfolding build_flow_tree
  execute_sub_workflow_with_flow parent_id parent_node_id config input depth w =
      elim (deps.workflow_of config.workflow_id) [
        | none ↦ some (
          error_result
              (String.◌++◌ "Sub-workflow '" (String.◌++◌ config.workflow_id "' not found")),
          w,
        )
        | some workflow ↦
            let mapped = apply_input_mapping input config.input_mapping in
            let w' = create_child parent_id parent_node_id config mapped depth w in
            elim (is_empty (select (λ n. is_empty n.inputs) workflow.nodes)) [
              | true ↦ some (
                error_result (
                    String.◌++◌ "Sub-workflow '"
                      (String.◌++◌ config.workflow_id "' has no entry nodes")),
                w',
              )
              | false ↦
                  elim (build_flow_tree workflow child_id mapped config.continue_on_fail fuel) [
                    | none ↦ none
                    | some children ↦ some (
                      answered child_id answer,
                      record_call
                          (flow_added
                            (aggregator_job parent_id parent_node_id config child_id children))
                          w',
                    )
                  ]
            ]
      ]
