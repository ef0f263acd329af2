-- ===== src/Control/Enqueue.antt =====
-- src/engine/workflow-engine.ts: getWorkflow, enqueueWorkflow and enqueueNode. The ids that a call draws
-- and the printing of a number are arguments; a call reads the clock once.
pub mod Lookup
pub mod Refused
pub mod Entries
pub mod Accepted
use Prim.Native.String
use spane.Base.{
  ℕ, zero, suc, ◌+◌, ◌-◌, String, Bool, true, false, not, Option, none, some, List, [], ◌∷◌, select,
  ltb, leb, ◌==◌, ◌||◌, ◌&&◌, if◌then◌else◌,
}
use spane.Base.Int.{ℤ, pos, negsuc, exceeds}
use spane.Types.Json.{Value, undefined}
use spane.Types.Workflow.{NodeDefinition, WorkflowDefinition, find_node}
use spane.Types.Execution.{ExecutionLog, Level}
use spane.Memory.Executions.{create_execution}
use spane.Memory.Observability.{add_log}
use spane.NodeUtils.Retry.{default_retry_config}
use spane.Errors.{
  Failure, other_error, workflow_not_found_error, workflow_validation_error,
  max_depth_exceeded_error,
}
use spane.Engine.World.{NodeJobData}
use spane.Engine.Flow.{node_data, is_empty}
use spane.Metrics.{MetricsData, increment_workflows_enqueued}
use spane.Control.Queue.{NodeQueue, JobOptions}
use spane.Control.Services.{WorkflowCache, WorkflowStore, EngineState, Ended, ended, raised}

-- src/engine/constants.ts
abbrev pub max_subworkflow_depth : ℕ
max_subworkflow_depth = 10

abbrev pub priority_min : ℕ
priority_min = 1

abbrev pub priority_max : ℕ
priority_max = 10

-- the options of enqueueWorkflow and enqueueNode
pub record EnqueueOptions : Type 0 where
  pub priority : Option ℤ
  pub delay : Option ℤ
  pub job_id : Option String

abbrev pub no_options : EnqueueOptions
no_options = record { priority = none; delay = none; job_id = none }

-- the ids that a call draws: that of the execution and that of the log entry
pub record Draw : Type 0 where
  pub id : String
  pub log_id : String

-- a text that counts as given: "" does not
abbrev pub given : Option String → Option String
given none = none
given (some s) = if s == "" then none else some s

abbrev pub text_or : String → Option String → String
text_or d none = d
text_or d (some s) = s

-- `priority < PRIORITY_MIN || priority > PRIORITY_MAX`
abbrev pub is_out_of_range : Option ℤ → Bool
is_out_of_range none = false
is_out_of_range (some p) = not (exceeds p 0) || exceeds p priority_max

abbrev pub priority_error : Failure
priority_error = other_error "Priority must be between 1 and 10"

-- the entry nodes of a workflow, or the error
unfoldable pub entry_nodes : WorkflowDefinition → String → Ended (List NodeDefinition)
entry_nodes workflow workflow_id =
    if not (workflow.entry_node_id == "")
    then (elim (find_node workflow.nodes workflow.entry_node_id) [
      | none ↦ raised (
          workflow_validation_error workflow_id
            (String.◌++◌ "Entry node '" (String.◌++◌ workflow.entry_node_id "' not found")))
      | some n ↦ ended (n ∷ [])
    ])
    else (elim (select (λ n. is_empty n.inputs) workflow.nodes) [
      | [] ↦ raised (
          other_error
            (String.◌++◌ "No entry nodes found in workflow '" (String.◌++◌ workflow_id "'")))
      | n ∷ ns ↦ ended (n ∷ ns)
    ])

module _ (node_queue : NodeQueue) (decimal : ℕ → String) where
  open node_queue use {Queue, add}

  abbrev pub manual_job_id : ℕ → String → String → EnqueueOptions → String
  manual_job_id now execution_id node_id options =
      text_or
        (String.◌++◌ execution_id
          (String.◌++◌ "-" (String.◌++◌ node_id (String.◌++◌ "-manual-" (decimal now)))))
        (given options.job_id)

  abbrev pub manual_options : ℕ → String → String → Option String → EnqueueOptions → JobOptions
  manual_options now execution_id node_id parent_job_id options = record {
    job_id = manual_job_id now execution_id node_id options;
    retry = default_retry_config;
    priority = options.priority;
    delay = options.delay;
    parent = given parent_job_id;
  }

  unfoldable pub enqueue_node :
      ℕ
      → String
      → String
      → String
      → Value
      → Option String
      → EnqueueOptions
      → Queue
      → Ended String × Queue
  enqueue_node now execution_id workflow_id node_id input_data parent_job_id options q =
      if is_out_of_range options.priority then (raised priority_error, q) else (
        ended (manual_job_id now execution_id node_id options),
        add "process-node" (node_data execution_id workflow_id node_id input_data)
            (manual_options now execution_id node_id parent_job_id options) q,
      )

  -- the loop over the entry nodes, which ends with the first error
  unfoldable pub enqueue_nodes :
      ℕ
      → String
      → String
      → List NodeDefinition
      → Value
      → Option String
      → EnqueueOptions
      → Queue
      → Option Failure × Queue
  unfolding enqueue_node
  enqueue_nodes now execution_id workflow_id [] input_data parent_job_id options q = (none, q)
  enqueue_nodes now execution_id workflow_id (n ∷ ns) input_data parent_job_id options q =
      let (answer, q') =
        enqueue_node now execution_id workflow_id n.id input_data parent_job_id options q in
      let rest =
        enqueue_nodes now execution_id workflow_id ns input_data parent_job_id options q' in
      elim answer [ raised f ↦ (some f, q') | ended _ ↦ rest ]

-- the arguments of enqueueWorkflow
pub record Request : Type 0 where
  pub workflow_id : String
  pub initial_data : Value
  pub parent_execution_id : Option String
  pub depth : ℕ
  pub parent_job_id : Option String
  pub options : EnqueueOptions

abbrev pub request : String → Value → EnqueueOptions → Request
request workflow_id initial_data options = record {
  workflow_id = workflow_id;
  initial_data = initial_data;
  parent_execution_id = none;
  depth = 0;
  parent_job_id = none;
  options = options;
}

abbrev pub count_enqueued : Option MetricsData → Option MetricsData
count_enqueued none = none
count_enqueued (some m) = some (increment_workflows_enqueued m)

-- the entry that `this.log` stores
abbrev pub engine_log : ℕ → String → String → String → ExecutionLog
engine_log now log_id execution_id message = record {
  id = log_id;
  execution_id = execution_id;
  node_id = none;
  level = Level.info;
  message = message;
  timestamp = now;
  metadata = undefined;
}

abbrev pub started_message : String → String → String
started_message workflow_id execution_id = String.◌++◌ "Workflow " (
    String.◌++◌ workflow_id (String.◌++◌ " started (Execution ID: " (String.◌++◌ execution_id ")")))

module _ (node_queue : NodeQueue) (workflow_cache : WorkflowCache) (workflows : WorkflowStore) where
  open node_queue use {Queue}
  open workflow_cache use {Cache, get, touch, set}
  open workflows use {Saved, stored}

  abbrev pub State : Type 0
  State = EngineState Queue Cache Saved

  -- a workflow that is not in the cache is read from the store and cached
  unfoldable pub get_workflow : String → State → Option WorkflowDefinition × State
  get_workflow workflow_id st =
      let st' = record st { cache = touch st.now workflow_id st.cache } in
      elim (get st.now workflow_id st.cache) [
        | some w ↦ (some w, st')
        | none ↦ elim (stored workflow_id st.saved) [
          | none ↦ (none, st')
          | some w ↦ (some w, record st' { cache = set st.now workflow_id w st'.cache })
        ]
      ]

  module _ (decimal : ℕ → String) where
    abbrev pub log_started : Draw → Request → State → State
    log_started draw r st = record st {
      store =
          add_log st.now
            (engine_log st.now draw.log_id draw.id (started_message r.workflow_id draw.id))
            st.store;
    }

    -- behind the choice of the entry nodes
    abbrev pub enqueue_entries :
        Draw → Request → Ended (List NodeDefinition) → State → Ended String × State
    enqueue_entries draw r (raised f) st = (raised f, st)
    enqueue_entries draw r (ended entries) st =
        let (failed, q) =
          enqueue_nodes node_queue decimal st.now draw.id r.workflow_id entries r.initial_data
            r.parent_job_id r.options st.queue in
        let st' = record st { queue = q } in
        elim failed [ some f ↦ (raised f, st') | none ↦ (ended draw.id, log_started draw r st') ]

    -- for a workflow that is known: the execution is created before any check
    unfoldable pub start_execution :
        Draw → Request → WorkflowDefinition → State → Ended String × State
    start_execution draw r workflow st =
        let created = record st {
          store =
              create_execution st.now draw.id r.workflow_id r.parent_execution_id r.depth
                r.initial_data st.store;
        } in
        if leb max_subworkflow_depth r.depth
        then (raised (max_depth_exceeded_error decimal r.depth max_subworkflow_depth), created)
        else enqueue_entries draw r (entry_nodes workflow r.workflow_id)
            (record created { metrics = count_enqueued st.metrics })

    unfoldable pub enqueue_workflow : Draw → Request → State → Ended String × State
    enqueue_workflow draw r st =
        let (found, st') = get_workflow r.workflow_id st in
        elim found [
          | none ↦ (raised (workflow_not_found_error r.workflow_id), st')
          | some workflow ↦ start_execution draw r workflow st'
        ]
