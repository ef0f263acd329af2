-- ===== src/Engine/Children/Expected.antt =====
-- src/engine/handlers/child-enqueue-handler.ts: what counts as resolved, and the job that enqueueNode
-- adds, described apart from the code.
use Prim.Native.String.{◌++◌}
use spane.Base.{
  inl, inr, ap, ◌∙◌, ◌&&◌, ◌||◌, Bool-cases, if◌then◌else◌, ℕ, String, ◌≡◌, refl, Bool, true, false,
  Option, none, some, List, [], ◌∷◌, every,
}
use spane.Base.Int.{ℤ, pos}
use spane.Base.Dict.{Dict, get}
use spane.Types.Json.{Value, undefined, str, num, obj, end, get_field, prop, is_truthy}
use spane.Types.Workflow.{NodeDefinition, WorkflowDefinition, find_node}
use spane.Types.Execution.{ExecutionResult}
use spane.NodeUtils.Duration.{as_number}
use spane.NodeUtils.JobId.{DelayStep, generate_node_job_id}
use spane.NodeUtils.Retry.{
  RetryConfig, attempts_from, backoff_from, extract_retry_config, is_some_true,
}
use spane.Engine.World.{Deps, AddedJob}
use spane.Engine.Children.{
  child_job, no_options, is_resolved, all_resolved, retry_policy_of, node_in,
}

-- a result that succeeded, or that marks the node as skipped
abbrev pub is_past : Option ExecutionResult → Bool
is_past none = false
is_past (some r) = elim r.success [
  | true ↦ true
  | false ↦ elim r.skipped [ some true ↦ true | some false ↦ false | none ↦ false ]
]

abbrev pub all_past : List String → Dict ExecutionResult → Bool
all_past parents results = every (λ p. is_past (get results p)) parents

pub all_past-all_resolved :
    (parents : List String) (results : Dict ExecutionResult)
    → all_resolved parents results ≡ all_past parents results
all_past-all_resolved [] results = refl
all_past-all_resolved (p ∷ ps) results =
    λ i. same (get results p) i && all_past-all_resolved ps results i
  where
    same : (o : Option ExecutionResult) → is_resolved o ≡ is_past o
    same none = refl
    same (some r) = by_flags r.success r.skipped
      where
        by_flags :
            (b : Bool) (o : Option Bool)
            → (b || is_some_true o) ≡ elim b [
              | true ↦ true
              | false ↦ elim o [ some true ↦ true | some false ↦ false | none ↦ false ]
            ]
        by_flags true o = refl
        by_flags false none = refl
        by_flags false (some true) = refl
        by_flags false (some false) = refl

-- the retry policy of a node of the workflow, if it has one
abbrev pub policy_in : Option WorkflowDefinition → String → Value
policy_in none node_id = undefined
policy_in (some workflow) node_id = elim (find_node workflow.nodes node_id) [
  | none ↦ undefined
  | some node ↦ get_field node.config "retryPolicy"
]

-- 3 attempts and an exponential backoff from 1000 ms, where the policy does not say otherwise
abbrev pub retry_for : Value → RetryConfig
retry_for policy =
    if is_truthy policy
    then record {
      attempts = elim (as_number (prop policy "maxAttempts")) [ none ↦ pos 3 | some n ↦ n ];
      backoff =
          if is_truthy (prop policy "backoff")
          then record {
            type = prop (prop policy "backoff") "type";
            delay = prop (prop policy "backoff") "delay";
          }
          else record { type = str "exponential"; delay = num (pos 1000) };
    }
    else record {
      attempts = pos 3;
      backoff = record { type = str "exponential"; delay = num (pos 1000) };
    }

-- the job of a node, under a job id, with a delay, a step and a start
abbrev pub job_for :
    Deps → String → String → String → String → Option ℤ → Option DelayStep → Option ℕ → AddedJob
job_for deps execution_id workflow_id node_id job_id delay step start = record {
  name = "process-node";
  payload = record {
    execution_id = execution_id;
    workflow_id = workflow_id;
    node_id = node_id;
    input_data = obj end;
    delay_step = step;
    delay_start_time = start;
    is_sub_workflow_aggregator = false;
    parent_execution_id = none;
    parent_node_id = none;
    output_mapping = none;
  };
  job_id = job_id;
  delay = delay;
  retry = retry_for (policy_in (deps.workflow_of workflow_id) node_id);
}

-- the job of a node that is to run at once
abbrev pub plain_job : Deps → String → String → String → AddedJob
plain_job deps execution_id workflow_id node_id =
    job_for deps execution_id workflow_id node_id (execution_id ++ ("-node-" ++ node_id)) none none
      none

-- the job that resumes a delay node after `d` ms
abbrev pub resumed_job : Deps → String → String → String → ℕ → ℕ → AddedJob
resumed_job deps execution_id workflow_id node_id now d =
    job_for deps execution_id workflow_id node_id
      (execution_id ++ ("-node-" ++ (node_id ++ "-delay-resumed"))) (some (pos d))
      (some DelayStep.resumed) (some now)

retry_for-extract_retry_config : (policy : Value) → extract_retry_config policy ≡ retry_for policy
unfolding extract_retry_config
retry_for-extract_retry_config policy = elim (Bool-cases (is_truthy policy)) [
  | inl given ↦ rw given (λ i. record {
    attempts = attempts (as_number (prop policy "maxAttempts")) i;
    backoff = backoff_from (prop policy "backoff");
  })
  | inr absent ↦ rw absent refl
]
  where
    attempts : (o : Option ℤ) → attempts_from o ≡ elim o [ none ↦ pos 3 | some n ↦ n ]
    attempts none = refl
    attempts (some n) = refl

policy_in-retry_policy_of :
    (workflow : Option WorkflowDefinition) (id : String)
    → retry_policy_of (node_in workflow id) ≡ policy_in workflow id
policy_in-retry_policy_of none id = refl
policy_in-retry_policy_of (some workflow) id = found (find_node workflow.nodes id)
  where
    found :
        (o : Option NodeDefinition)
        → retry_policy_of o
          ≡ elim o [ none ↦ undefined | some node ↦ get_field node.config "retryPolicy" ]
    found none = refl
    found (some node) = refl

module _ (deps : Deps) (execution_id workflow_id node_id : String) where
  retry_lem :
      extract_retry_config (retry_policy_of (node_in (deps.workflow_of workflow_id) node_id))
      ≡ retry_for (policy_in (deps.workflow_of workflow_id) node_id)
  retry_lem =
      ap extract_retry_config (policy_in-retry_policy_of (deps.workflow_of workflow_id) node_id)
      ∙ retry_for-extract_retry_config (policy_in (deps.workflow_of workflow_id) node_id)

  -- The job of a child has the id of its node, no delay, and the retries that the node's policy asks for.
  pub child_job-plain_job :
      child_job deps execution_id workflow_id node_id no_options
      ≡ plain_job deps execution_id workflow_id node_id
  unfolding generate_node_job_id
  child_job-plain_job =
      λ i. record (plain_job deps execution_id workflow_id node_id) { retry = retry_lem i }

  -- The job that resumes a delay node has an id of its own.
  pub child_job-resumed_job :
      (now d : ℕ)
      → child_job deps execution_id workflow_id node_id (record {
        delay = some (pos d);
        delay_step = some DelayStep.resumed;
        delay_start_time = some now;
      })
        ≡ resumed_job deps execution_id workflow_id node_id now d
  unfolding generate_node_job_id
  child_job-resumed_job now d =
      λ i. record (resumed_job deps execution_id workflow_id node_id now d) { retry = retry_lem i }
