-- ===== src/Memory/Observability.antt =====
-- src/db/inmemory-store.ts: logs, traces and statistics.
use spane.Base.{
  ℕ, ◌+◌, String, Option, none, some, List, [], ◌∷◌, ◌++◌, length, ◌==◌, if◌then◌else◌,
}
use spane.Base.Dict.{Dict, get, put}
use spane.Types.Execution.{ExecutionLog, ExecutionSpan, ExecutionTrace}
use spane.Memory.State.{Store, Timestamped, wrap}
use spane.Memory.Cleanup.{trim}
use spane.Memory.Executions.{value_of}

-- push, then trim if over the limit
abbrev pub push_log :
    ℕ
    → ℕ
    → ExecutionLog
    → Option (Timestamped (List ExecutionLog))
    → Timestamped (List ExecutionLog)
push_log now limit log none = wrap now (log ∷ [])
push_log now limit log (some t) = record t {
  value = trim limit (t.value ++ log ∷ []);
  last_accessed_at = now;
}

unfoldable pub add_log : ℕ → ExecutionLog → Store → Store
unfolding trim
add_log now log s = record s {
  logs =
      put s.logs log.execution_id
        (push_log now s.config.max_logs_per_execution log (get s.logs log.execution_id));
}

abbrev pub logs_of : Option (Timestamped (List ExecutionLog)) → List ExecutionLog
logs_of none = []
logs_of (some t) = t.value

unfoldable pub get_logs : ℕ → String → Store → List ExecutionLog × Store
get_logs now id s = (
  logs_of (get s.logs id),
  elim (get s.logs id) [
    | none ↦ s
    | some t ↦ record s { logs = put s.logs id (record t { last_accessed_at = now }) }
  ],
)

abbrev pub push_span :
    ℕ
    → ℕ
    → String
    → String
    → ExecutionSpan
    → Option (Timestamped ExecutionTrace)
    → Timestamped ExecutionTrace
push_span now limit id workflow_id span none =
    wrap now (record { execution_id = id; workflow_id = workflow_id; spans = span ∷ [] })
push_span now limit id workflow_id span (some t) = record t {
  value = record t.value { spans = trim limit (t.value.spans ++ span ∷ []) };
  last_accessed_at = now;
}

-- `none` is the error "execution not found"
unfoldable pub add_span : ℕ → String → ExecutionSpan → Store → Option Store
unfolding trim
add_span now id span s = elim (value_of (get s.executions id)) [
  | none ↦ none
  | some e ↦ some (record s {
    traces =
        put s.traces id
          (push_span now s.config.max_spans_per_execution id e.workflow_id span (get s.traces id));
  })
]

-- the first span with the id is replaced by its update
unfoldable pub update_first :
    String → (ExecutionSpan → ExecutionSpan) → List ExecutionSpan → Option (List ExecutionSpan)
update_first span_id update [] = none
update_first span_id update (x ∷ xs) =
    if x.id == span_id
    then some (update x ∷ xs)
    else elim (update_first span_id update xs) [ none ↦ none | some ys ↦ some (x ∷ ys) ]

unfoldable pub update_span : ℕ → String → String → (ExecutionSpan → ExecutionSpan) → Store → Store
unfolding update_first
update_span now id span_id update s = elim (get s.traces id) [
  | none ↦ s
  | some t ↦ elim (update_first span_id update t.value.spans) [
    | none ↦ s
    | some spans ↦ record s {
      traces =
          put s.traces id
            (record t { value = record t.value { spans = spans }; last_accessed_at = now });
    }
  ]
]

unfoldable pub get_trace : ℕ → String → Store → Option ExecutionTrace × Store
get_trace now id s = (
  value_of (get s.traces id),
  elim (get s.traces id) [
    | none ↦ s
    | some t ↦ record s { traces = put s.traces id (record t { last_accessed_at = now }) }
  ],
)

unfoldable pub count_logs : Dict (Timestamped (List ExecutionLog)) → ℕ
count_logs [] = 0
count_logs ((id, t) ∷ rest) = length t.value + count_logs rest

unfoldable pub count_spans : Dict (Timestamped ExecutionTrace) → ℕ
count_spans [] = 0
count_spans ((id, t) ∷ rest) = length t.value.spans + count_spans rest

pub record Stats : Type 0 where
  pub execution_count : ℕ
  pub log_count : ℕ
  pub trace_count : ℕ

unfoldable pub get_stats : Store → Stats
unfolding count_logs count_spans
get_stats s = record {
  execution_count = length s.executions;
  log_count = count_logs s.logs;
  trace_count = count_spans s.traces;
}
