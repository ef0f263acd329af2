-- ===== src/Memory/State.antt =====
-- The state of the store, its configuration, and the accesses that every method shares.
use spane.Base.{ℕ, Bool, true, List, []}
use spane.Base.Dict.{Dict}
use spane.Types.Execution.{ExecutionState, ExecutionLog, ExecutionTrace}

pub record StoreConfig : Type 0 where
  pub max_executions : ℕ
  pub max_logs_per_execution : ℕ
  pub max_spans_per_execution : ℕ
  pub completed_execution_ttl : ℕ
  pub cleanup_interval : ℕ
  pub enable_cleanup : Bool

abbrev pub default_config : StoreConfig
default_config = record {
  max_executions = 1000;
  max_logs_per_execution = 1000;
  max_spans_per_execution = 500;
  completed_execution_ttl = 3600000;
  cleanup_interval = 300000;
  enable_cleanup = true;
}

pub record Timestamped (A : Type 0) : Type 0 where
  pub value : A
  pub inserted_at : ℕ
  pub last_accessed_at : ℕ

pub record Store : Type 0 where
  pub executions : Dict (Timestamped ExecutionState)
  pub logs : Dict (Timestamped (List ExecutionLog))
  pub traces : Dict (Timestamped ExecutionTrace)
  pub config : StoreConfig

abbrev pub empty : StoreConfig → Store
empty config = record { executions = []; logs = []; traces = []; config = config }

abbrev pub wrap : {A : Type 0} → ℕ → A → Timestamped A
wrap now value = record { value = value; inserted_at = now; last_accessed_at = now }

abbrev pub update_access : {A : Type 0} → ℕ → Timestamped A → Timestamped A
update_access now t = record t { last_accessed_at = now }

-- `clear`
unfoldable pub clear : Store → Store
clear s = empty s.config
