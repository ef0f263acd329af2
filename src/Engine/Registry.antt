-- ===== src/Engine/Registry.antt =====
-- src/engine/registry.ts: NodeRegistry, and the executors and contexts of src/types.ts. An executor is
-- code of the application, read as a function from its context to a result or an error that it throws.
use spane.Base.{ℕ, zero, String, Bool, true, false, Option, none, some, [], if◌then◌else◌}
use spane.Base.Int.{ℤ, pos, negsuc}
use spane.Base.Dict.{Dict, get, put}
use spane.Types.Json.{Value, Fields}
use spane.Types.Execution.{ExecutionResult}

-- `rate_limit` says whether the context offers the function of that name
pub record ExecutionContext : Type 0 where
  pub workflow_id : String
  pub execution_id : String
  pub node_id : String
  pub input_data : Value
  pub node_config : Fields
  pub previous_results : Dict ExecutionResult
  pub all_node_results : Option (Dict ExecutionResult)
  pub parent_execution_id : Option String
  pub depth : ℕ
  pub rate_limit : Bool

-- how an asynchronous function ends; an error stands as its message
pub data Outcome : Type 0 where
  returned : ExecutionResult → Outcome
  thrown : String → Outcome

abbrev pub Executor : Type 0
Executor = ExecutionContext → Outcome

pub record NodeRegistry : Type 0 where
  pub executors : Dict Executor
  pub rate_limits : Dict ℤ

abbrev pub empty_registry : NodeRegistry
empty_registry = record { executors = []; rate_limits = [] }

unfoldable pub register : String → Executor → NodeRegistry → NodeRegistry
register node_type executor r = record r { executors = put r.executors node_type executor }

unfoldable pub get_executor : NodeRegistry → String → Option Executor
get_executor r node_type = get r.executors node_type

unfoldable pub has_executor : NodeRegistry → String → Bool
unfolding get_executor
has_executor r node_type = elim (get_executor r node_type) [ none ↦ false | some e ↦ true ]

-- `limitPerSecond <= 0`
abbrev pub is_not_positive : ℤ → Bool
is_not_positive (pos zero) = true
is_not_positive (pos _) = false
is_not_positive (negsuc _) = true

-- `none`: the limit is invalid, and the method throws
unfoldable pub register_rate_limit : String → ℤ → NodeRegistry → Option NodeRegistry
register_rate_limit node_type limit r =
    if is_not_positive limit
    then none
    else some (record r { rate_limits = put r.rate_limits node_type limit })

unfoldable pub get_rate_limit : NodeRegistry → String → Option ℤ
get_rate_limit r node_type = get r.rate_limits node_type
