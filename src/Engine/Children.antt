-- ===== src/Engine/Children.antt =====
-- src/engine/handlers/child-enqueue-handler.ts: checkAndEnqueueChildren, skipNode and enqueueNode.
-- The first two call one another; the recursion takes fuel.
pub mod Expected
pub mod Fuel
pub mod Ready
pub mod Skips
use spane.Base.{
  ℕ, zero, suc, String, Bool, true, false, Option, none, some, List, [], ◌∷◌, has, every, ◌||◌,
  if◌then◌else◌,
}
use spane.Base.Int.{ℤ}
use spane.Base.Dict.{Dict, get}
use spane.Types.Json.{Value, Fields, undefined, null, obj, end, get_field}
use spane.Types.Workflow.{NodeDefinition, WorkflowDefinition, find_node}
use spane.Types.Execution.{ExecutionResult}
use spane.NodeUtils.JobId.{DelayStep, generate_node_job_id}
use spane.NodeUtils.Retry.{extract_retry_config, is_some_true}
use spane.Events.{node_skipped}
use spane.Engine.World.{
  World, Job, Deps, NodeJobData, AddedJob, job_added, record_call, emit_if, store_result,
  read_results,
}

pub record EnqueueOptions : Type 0 where
  pub delay : Option ℤ
  pub delay_step : Option DelayStep
  pub delay_start_time : Option ℕ

abbrev pub no_options : EnqueueOptions
no_options = record { delay = none; delay_step = none; delay_start_time = none }

-- `workflow?.nodes.find(n => n.id === nodeId)`
abbrev pub node_in : Option WorkflowDefinition → String → Option NodeDefinition
node_in none id = none
node_in (some w) id = find_node w.nodes id

-- `node?.config?.retryPolicy`
abbrev pub retry_policy_of : Option NodeDefinition → Value
retry_policy_of none = undefined
retry_policy_of (some n) = get_field n.config "retryPolicy"

abbrev pub child_job : Deps → String → String → String → EnqueueOptions → AddedJob
child_job deps execution_id workflow_id node_id options = record {
  name = "process-node";
  payload = record {
    execution_id = execution_id;
    workflow_id = workflow_id;
    node_id = node_id;
    input_data = obj end;
    delay_step = options.delay_step;
    delay_start_time = options.delay_start_time;
    is_sub_workflow_aggregator = false;
    parent_execution_id = none;
    parent_node_id = none;
    output_mapping = none;
  };
  job_id = generate_node_job_id execution_id node_id options.delay_step;
  delay = options.delay;
  retry = extract_retry_config (retry_policy_of (node_in (deps.workflow_of workflow_id) node_id));
}

unfoldable pub enqueue_node : Deps → String → String → String → EnqueueOptions → World → World
enqueue_node deps execution_id workflow_id node_id options w =
    record_call (job_added (child_job deps execution_id workflow_id node_id options)) w

-- `res && (res.success || res.skipped)`
abbrev pub is_resolved : Option ExecutionResult → Bool
is_resolved none = false
is_resolved (some r) = r.success || is_some_true r.skipped

abbrev pub all_resolved : List String → Dict ExecutionResult → Bool
all_resolved parents results = every (λ p. is_resolved (get results p)) parents

-- `!nextNodes || nextNodes.includes(childNodeId)`
abbrev pub should_run : Option (List String) → String → Bool
should_run none child = true
should_run (some next_nodes) child = has next_nodes child

abbrev pub skip_result : ExecutionResult
skip_result = record {
  success = true;
  output = null;
  error = none;
  next_nodes = none;
  skipped = some true;
}

module _ (deps : Deps) (execution_id workflow_id : String) (job : Option Job) where
  -- a child that is to run: it is enqueued if all its parents are resolved
  unfoldable pub enqueue_ready : String → Option NodeDefinition → World → World
  enqueue_ready child_id none w = w
  enqueue_ready child_id (some child) w =
      let (results, w') = read_results execution_id child.inputs w in
      if all_resolved child.inputs results
      then enqueue_node deps execution_id workflow_id child_id no_options w'
      else w'

  -- the loop over the outputs; `skip` is the call of `skipNode`
  unfoldable pub each_child :
      (String → World → Option World)
      → WorkflowDefinition
      → Option (List String)
      → List String
      → World
      → Option World
  each_child skip workflow next_nodes [] w = some w
  each_child skip workflow next_nodes (child ∷ rest) w = elim (should_run next_nodes child) [
    | true ↦
        each_child skip workflow next_nodes rest
          (enqueue_ready child (find_node workflow.nodes child) w)
    | false ↦ elim (skip child w) [
      | none ↦ none
      | some w' ↦ each_child skip workflow next_nodes rest w'
    ]
  ]

  -- `skipNode`, with the call of `checkAndEnqueueChildren` as `check`
  unfoldable pub skip_node_with :
      (NodeDefinition → Option (List String) → World → Option World) → String → World → Option World
  skip_node_with check node_id w =
      let w' =
        emit_if job (node_skipped w.now node_id workflow_id execution_id)
          (store_result execution_id node_id skip_result w) in
      elim (node_in (deps.workflow_of workflow_id) node_id) [
        | none ↦ some w'
        | some node ↦ check node none w'
      ]

  -- `none`: the fuel is gone
  unfoldable pub check_and_enqueue_children :
      ℕ → NodeDefinition → Option (List String) → World → Option World
  check_and_enqueue_children zero node next_nodes w = none
  check_and_enqueue_children (suc fuel) node next_nodes w = elim (deps.workflow_of workflow_id) [
    | none ↦ some w
    | some workflow ↦
        each_child (skip_node_with (check_and_enqueue_children fuel)) workflow next_nodes
          node.outputs w
  ]

  unfoldable pub skip_node : ℕ → String → World → Option World
  skip_node fuel node_id w = skip_node_with (check_and_enqueue_children fuel) node_id w
