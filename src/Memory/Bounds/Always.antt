-- ===== src/Memory/Bounds/Always.antt =====
-- src/db/inmemory-store.ts: the limits under sequences of method calls.
use spane.Base.{ℕ, ◌<◌, refl, List, [], ◌∷◌, arith}
use spane.Base.Dict.{get}
use spane.Memory.State.{Store, StoreConfig, empty}
use spane.Memory.Executions.{
  update_node_result, cache_node_result, get_execution, get_node_results, get_pending_node_count,
  set_execution_status, update_execution_metadata,
}
use spane.Memory.Bounds.{IsBounded, Call, perform, perform_all}
use spane.Memory.Bounds.Writes.{
  cleanup-IsBounded, create_execution-IsBounded, modify_execution-IsBounded,
}
use spane.Memory.Bounds.Records.{
  add_log-IsBounded, get_logs-IsBounded, add_span-IsBounded, update_span-IsBounded,
  get_trace-IsBounded, clear-IsBounded,
}
use spane.Memory.Bounds.{
  created, result_updated, result_cached, execution_read, results_read, pending_read, status_set,
  metadata_updated, log_added, logs_read, span_added, span_updated, trace_read, cleaned, cleared,
}

module _ (c : StoreConfig) (log_limit : 0 < c.max_logs_per_execution)
    (span_limit : 0 < c.max_spans_per_execution) where
  perform-IsBounded :
      (now : ℕ) (call : Call) (s : Store) → IsBounded c s → IsBounded c (perform now call s)
  unfolding perform update_node_result cache_node_result get_execution get_node_results
      get_pending_node_count set_execution_status update_execution_metadata
  perform-IsBounded now (created id workflow_id parent depth initial) s b =
      create_execution-IsBounded c log_limit span_limit now id workflow_id parent depth initial s b
  perform-IsBounded now (result_updated id node_id result) s b =
      modify_execution-IsBounded c log_limit span_limit now id _ s b
  perform-IsBounded now (result_cached id node_id result) s b =
      modify_execution-IsBounded c log_limit span_limit now id _ s b
  perform-IsBounded now (execution_read id) s b =
      modify_execution-IsBounded c log_limit span_limit now id _ s b
  perform-IsBounded now (results_read id node_ids) s b =
      modify_execution-IsBounded c log_limit span_limit now id _ s b
  perform-IsBounded now (pending_read id total) s b =
      modify_execution-IsBounded c log_limit span_limit now id _ s b
  perform-IsBounded now (status_set id status) s b =
      modify_execution-IsBounded c log_limit span_limit now id _ s b
  perform-IsBounded now (metadata_updated id metadata) s b =
      modify_execution-IsBounded c log_limit span_limit now id _ s b
  perform-IsBounded now (log_added log) s b = add_log-IsBounded c log_limit span_limit now log s b
  perform-IsBounded now (logs_read id) s b = get_logs-IsBounded c log_limit span_limit now id s b
  perform-IsBounded now (span_added id span) s b =
      add_span-IsBounded c log_limit span_limit now id span s b
  perform-IsBounded now (span_updated id span_id update) s b =
      update_span-IsBounded c log_limit span_limit now id span_id update s b
  perform-IsBounded now (trace_read id) s b = get_trace-IsBounded c log_limit span_limit now id s b
  perform-IsBounded now cleaned s b =
      cleanup-IsBounded c log_limit span_limit now s b.config b.unique
  perform-IsBounded now cleared s b = clear-IsBounded c log_limit span_limit s b

  perform_all-IsBounded :
      (calls : List (ℕ × Call)) (s : Store) → IsBounded c s → IsBounded c (perform_all calls s)
  unfolding perform_all
  perform_all-IsBounded [] s b = b
  perform_all-IsBounded ((now, call) ∷ calls) s b =
      perform_all-IsBounded calls (perform now call s) (perform-IsBounded now call s b)

empty-IsBounded : (c : StoreConfig) → IsBounded c (empty c)
unfolding get
empty-IsBounded c = record {
  config = refl;
  unique = tt;
  few = omega arith;
  short_logs = λ k t h. cc;
  short_traces = λ k t h. cc;
}

-- A store that starts empty, with limits above zero on logs and spans, never holds more executions,
-- logs of an execution or spans of a trace than its configuration allows, whatever is called.
pub perform_all-empty-IsBounded :
    (c : StoreConfig) (calls : List (ℕ × Call))
    → 0 < c.max_logs_per_execution
    → 0 < c.max_spans_per_execution
    → IsBounded c (perform_all calls (empty c))
perform_all-empty-IsBounded c calls logs spans =
    perform_all-IsBounded c logs spans calls (empty c) (empty-IsBounded c)
