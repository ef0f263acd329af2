-- ===== src/Memory/Bounds.antt =====
-- src/db/inmemory-store.ts: the method calls of the store, and its limits.
pub mod Trimmed
pub mod Writes
pub mod Records
pub mod Always
use spane.Base.{
  ℕ, suc, ◌*◌, ◌≤◌, ◌<◌, String, ◌≡◌, refl, ◌∙◌, subst, ap, inl, inr, ⊎_elim, Bool, true, false,
  Option, none, some, List, [], ◌∷◌, ◌++◌, length, length-append, ltb, Option-cases, Bool-cases,
  arith, ◌==◌, eq_iff, if◌then◌else◌,
}
use spane.Base.Dict.{Dict, get, put, get-put}
use spane.Base.Dict.Unique.{Unique, Unique-put, length-put-le, length-put_found}
use spane.Types.Json.{Value, Fields}
use spane.Types.Execution.{
  ExecutionResult, ExecutionState, ExecutionLog, ExecutionSpan, ExecutionTrace, Status,
}
use spane.Memory.State.{Store, StoreConfig, Timestamped, wrap, empty, clear}
use spane.Memory.Cleanup.{trim, cleanup}
use spane.Memory.Cleanup.Limit.{length-cleanup-le, Unique-cleanup, config-cleanup}
use spane.Memory.Executions.{
  create_execution, modify_execution, update_node_result, cache_node_result, get_execution,
  get_node_results, get_pending_node_count, set_execution_status, update_execution_metadata,
  new_execution, value_of,
}
use spane.Memory.Observability.{
  add_log, push_log, get_logs, add_span, push_span, update_first, update_span, get_trace,
}
use spane.Memory.Bounds.Trimmed.{length-trim-le, length-update_first, Short}

-- `few`: the limit on executions; `short_logs`, `short_traces`: the limits on each log and each trace.
pub record IsBounded (c : StoreConfig) (s : Store) : Type 0 where
  pub config : s.config ≡ c
  pub unique : Unique s.executions
  pub few : length s.executions ≤ c.max_executions
  pub short_logs : Short length c.max_logs_per_execution s.logs
  pub short_traces : Short (λ t. length t.spans) c.max_spans_per_execution s.traces

-- one call of a method that writes to the maps, with the clock that it reads
pub data Call : Type 0 where
  created : (id workflow_id : String) (parent : Option String) (depth : ℕ) (initial : Value) → Call
  result_updated result_cached : (id node_id : String) (result : ExecutionResult) → Call
  execution_read : (id : String) → Call
  results_read : (id : String) (node_ids : List String) → Call
  pending_read : (id : String) (total : ℕ) → Call
  status_set : (id : String) (status : Status) → Call
  metadata_updated : (id : String) (metadata : Option Fields) → Call
  log_added : ExecutionLog → Call
  logs_read : (id : String) → Call
  span_added : (id : String) (span : ExecutionSpan) → Call
  span_updated : (id span_id : String) (update : ExecutionSpan → ExecutionSpan) → Call
  trace_read : (id : String) → Call
  cleaned cleared : Call

abbrev pub or_same : Store → Option Store → Store
or_same s none = s
or_same s (some s') = s'

unfoldable pub perform : ℕ → Call → Store → Store
perform now (created id workflow_id parent depth initial) s =
    create_execution now id workflow_id parent depth initial s
perform now (result_updated id node_id result) s = update_node_result now id node_id result s
perform now (result_cached id node_id result) s = cache_node_result now id node_id result s
perform now (execution_read id) s = (get_execution now id s).1
perform now (results_read id node_ids) s = (get_node_results now id node_ids s).1
perform now (pending_read id total) s = (get_pending_node_count now id total s).1
perform now (status_set id status) s = set_execution_status now id status s
perform now (metadata_updated id metadata) s = update_execution_metadata now id metadata s
perform now (log_added log) s = add_log now log s
perform now (logs_read id) s = (get_logs now id s).1
perform now (span_added id span) s = or_same s (add_span now id span s)
perform now (span_updated id span_id update) s = update_span now id span_id update s
perform now (trace_read id) s = (get_trace now id s).1
perform now cleaned s = cleanup now s
perform now cleared s = clear s

unfoldable pub perform_all : List (ℕ × Call) → Store → Store
perform_all [] s = s
perform_all ((now, c) ∷ cs) s = perform_all cs (perform now c s)

abbrev pub max_exec : StoreConfig → ℕ
max_exec c = c.max_executions

abbrev pub max_logs : StoreConfig → ℕ
max_logs c = c.max_logs_per_execution

abbrev pub max_spans : StoreConfig → ℕ
max_spans c = c.max_spans_per_execution
