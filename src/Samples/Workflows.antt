-- ===== src/Samples/Workflows.antt =====
-- The workflows, executions and worlds of the samples.
use spane.Base.{ℕ, String, true, false, Option, none, some, List, [], ◌∷◌}
use spane.Base.Int.{pos}
use spane.Base.Dict.{Dict}
use spane.Types.Json.{Value, Fields, null, num, str, end, field}
use spane.Types.Workflow.{NodeDefinition, WorkflowDefinition}
use spane.Types.Execution.{ExecutionResult, ExecutionState, Status}
use spane.Memory.State.{Store, Timestamped, default_config}
use spane.NodeUtils.JobId.{DelayStep}
use spane.Engine.World.{World, Job, Deps, NodeJobData}
use spane.Engine.Registry.{NodeRegistry, Executor, returned, thrown}

abbrev pub node_of : String → String → Fields → List String → List String → NodeDefinition
node_of id type config inputs outputs = record {
  id = id;
  type = type;
  config = config;
  inputs = inputs;
  outputs = outputs;
}

abbrev pub fetch : NodeDefinition
fetch = node_of "fetch" "http" end [] ("check" ∷ [])

abbrev pub check : NodeDefinition
check = node_of "check" "if" end ("fetch" ∷ []) ("save" ∷ "alert" ∷ [])

abbrev pub save : NodeDefinition
save = node_of "save" "db" end ("check" ∷ []) []

abbrev pub alert : NodeDefinition
alert = node_of "alert" "mail" end ("check" ∷ []) []

abbrev pub pause : NodeDefinition
pause = node_of "pause" "delay" (field "duration" (num (pos 500)) end) ("fetch" ∷ []) []

abbrev pub workflow_with : String → List NodeDefinition → WorkflowDefinition
workflow_with entry nodes = record {
  id = "orders";
  name = "Orders";
  nodes = nodes;
  entry_node_id = entry;
  max_concurrency = none;
  concurrency_lock_ttl = none;
  triggers = none;
  priority = none;
  delay = none;
  job_id = none;
}

abbrev pub orders : WorkflowDefinition
orders = workflow_with "fetch" (fetch ∷ check ∷ save ∷ alert ∷ [])

-- two nodes that name one another
abbrev pub looping : WorkflowDefinition
looping =
    workflow_with "a"
      (node_of "a" "x" end ("b" ∷ []) ("b" ∷ []) ∷ node_of "b" "x" end ("a" ∷ []) ("a" ∷ []) ∷ [])

abbrev pub done_with : Value → ExecutionResult
done_with v = record { success = true; output = v; error = none; next_nodes = none; skipped = none }

abbrev pub execution_with : Dict ExecutionResult → Status → ExecutionState
execution_with results status = record {
  execution_id = "exec-1";
  workflow_id = "orders";
  status = status;
  node_results = results;
  started_at = 10;
  completed_at = none;
  parent_execution_id = none;
  depth = 0;
  initial_data = null;
  metadata = none;
}

-- only `fetch` has a result
abbrev pub fetched : ExecutionState
fetched = execution_with (("fetch", done_with (str "body")) ∷ []) Status.running

-- `fetch` and `check` have results
abbrev pub checked : ExecutionState
checked =
    execution_with (("fetch", done_with (str "body")) ∷ ("check", done_with (str "ok")) ∷ [])
      Status.running

abbrev pub stamped : {A : Type 0} → ℕ → A → Timestamped A
stamped at value = record { value = value; inserted_at = at; last_accessed_at = at }

abbrev pub store_with : ExecutionState → Store
store_with e = record {
  executions = ("exec-1", stamped 10 e) ∷ [];
  logs = [];
  traces = [];
  config = default_config;
}

abbrev pub world_with : ExecutionState → World
world_with e = record { store = store_with e; calls = []; now = 100 }

abbrev pub orders_of : String → Option WorkflowDefinition
orders_of id = some orders

abbrev pub deps : Deps
deps = record { workflow_of = orders_of; lock_token = λ key. some "token-1" }

abbrev pub job : Job
job = record { attempts = some 3; attempts_made = 3 }

abbrev pub job_data_of : String → Option DelayStep → NodeJobData
job_data_of node_id step = record {
  execution_id = "exec-1";
  workflow_id = "orders";
  node_id = node_id;
  input_data = null;
  delay_step = step;
  delay_start_time = none;
  is_sub_workflow_aggregator = false;
  parent_execution_id = none;
  parent_node_id = none;
  output_mapping = none;
}

abbrev pub echo : Executor
echo context = returned (done_with context.input_data)

abbrev pub registry : NodeRegistry
registry = record {
  executors = ("if", echo) ∷ ("http", λ c. thrown "no connection") ∷ [];
  rate_limits = [];
}
