-- ===== src/Memory/Bounds/Records.antt =====
-- src/db/inmemory-store.ts: the limits under the methods on logs and traces.
use spane.Base.{
  ℕ, ◌≤◌, ◌<◌, String, ap, inl, inr, Option, none, some, List, [], ◌∷◌, ◌++◌, length, Option-cases,
  arith,
}
use spane.Base.Dict.{Dict, get}
use spane.Types.Execution.{ExecutionLog, ExecutionSpan, ExecutionTrace}
use spane.Memory.State.{Store, StoreConfig, Timestamped, clear}
use spane.Memory.Executions.{value_of}
use spane.Memory.Observability.{
  add_log, push_log, get_logs, add_span, push_span, update_first, update_span, get_trace,
}
use spane.Memory.Bounds.Trimmed.{length-trim-le, length-update_first, Short, Short-put}
use spane.Memory.Bounds.{IsBounded, or_same, max_logs, max_spans}

module _ (c : StoreConfig) (log_limit : 0 < c.max_logs_per_execution)
    (span_limit : 0 < c.max_spans_per_execution) where
  with_logs :
      (s : Store) (ls : Dict (Timestamped (List ExecutionLog)))
      → IsBounded c s
      → Short length c.max_logs_per_execution ls
      → IsBounded c (record s { logs = ls })
  with_logs s ls b h = record {
    config = b.config;
    unique = b.unique;
    few = b.few;
    short_logs = h;
    short_traces = b.short_traces;
  }

  with_traces :
      (s : Store) (ts : Dict (Timestamped ExecutionTrace))
      → IsBounded c s
      → Short (λ t. length t.spans) c.max_spans_per_execution ts
      → IsBounded c (record s { traces = ts })
  with_traces s ts b h = record {
    config = b.config;
    unique = b.unique;
    few = b.few;
    short_logs = b.short_logs;
    short_traces = h;
  }

  push_log-le :
      (now limit : ℕ) (log : ExecutionLog) (o : Option (Timestamped (List ExecutionLog)))
      → 0 < limit
      → length (push_log now limit log o).value ≤ limit
  push_log-le now limit log none h = omega arith
  push_log-le now limit log (some t) h = length-trim-le limit (t.value ++ log ∷ []) h

  pub add_log-IsBounded :
      (now : ℕ) (log : ExecutionLog) (s : Store) → IsBounded c s → IsBounded c (add_log now log s)
  unfolding add_log
  add_log-IsBounded now log s b = with_logs s _ b (
      Short-put length c.max_logs_per_execution s.logs log.execution_id _
        (omega (
          arith,
          ap max_logs b.config,
          push_log-le now s.config.max_logs_per_execution log (get s.logs log.execution_id)
              (omega (arith, ap max_logs b.config, log_limit)),
        ))
        b.short_logs)

  pub get_logs-IsBounded :
      (now : ℕ) (id : String) (s : Store) → IsBounded c s → IsBounded c (get_logs now id s).1
  unfolding get_logs
  get_logs-IsBounded now id s b = elim (Option-cases (get s.logs id)) [
    | inl e ↦ rw (e, get_logs) b
    | inr (t, e) ↦
        rw (e, get_logs)
          (with_logs s _ b (
            Short-put length c.max_logs_per_execution s.logs id _ (b.short_logs id t e)
              b.short_logs))
  ]

  pub get_trace-IsBounded :
      (now : ℕ) (id : String) (s : Store) → IsBounded c s → IsBounded c (get_trace now id s).1
  unfolding get_trace
  get_trace-IsBounded now id s b = elim (Option-cases (get s.traces id)) [
    | inl e ↦ rw (e, get_trace) b
    | inr (t, e) ↦
        rw (e, get_trace)
          (with_traces s _ b (
            Short-put (λ t. length t.spans) c.max_spans_per_execution s.traces id _
              (b.short_traces id t e) b.short_traces))
  ]

  push_span-le :
      (now limit : ℕ) (id workflow_id : String) (span : ExecutionSpan)
      (o : Option (Timestamped ExecutionTrace))
      → 0 < limit
      → length (push_span now limit id workflow_id span o).value.spans ≤ limit
  push_span-le now limit id workflow_id span none h = omega arith
  push_span-le now limit id workflow_id span (some t) h =
      length-trim-le limit (t.value.spans ++ span ∷ []) h

  pub add_span-IsBounded :
      (now : ℕ) (id : String) (span : ExecutionSpan) (s : Store)
      → IsBounded c s
      → IsBounded c (or_same s (add_span now id span s))
  unfolding add_span
  add_span-IsBounded now id span s b = elim (Option-cases (value_of (get s.executions id))) [
    | inl e ↦ rw (e, add_span, or_same) b
    | inr (x, e) ↦
        rw (e, add_span, or_same)
          (with_traces s _ b (
            Short-put (λ t. length t.spans) c.max_spans_per_execution s.traces id _
              (omega (
                arith,
                ap max_spans b.config,
                push_span-le now s.config.max_spans_per_execution id x.workflow_id span
                    (get s.traces id) (omega (arith, ap max_spans b.config, span_limit)),
              ))
              b.short_traces))
  ]

  pub update_span-IsBounded :
      (now : ℕ) (id span_id : String) (update : ExecutionSpan → ExecutionSpan) (s : Store)
      → IsBounded c s
      → IsBounded c (update_span now id span_id update s)
  unfolding update_span
  update_span-IsBounded now id span_id update s b = elim (Option-cases (get s.traces id)) [
    | inl e ↦ rw (e, update_span) b
    | inr (t, e) ↦ elim (Option-cases (update_first span_id update t.value.spans)) [
      | inl e' ↦ rw (e, e', update_span) b
      | inr (spans, e') ↦
          rw (e, e', update_span)
            (with_traces s _ b (
              Short-put (λ t. length t.spans) c.max_spans_per_execution s.traces id _
                (omega (
                  arith,
                  length-update_first span_id update t.value.spans spans e',
                  b.short_traces id t e,
                ))
                b.short_traces))
    ]
  ]

  pub clear-IsBounded : (s : Store) → IsBounded c s → IsBounded c (clear s)
  unfolding clear get
  clear-IsBounded s b = record {
    config = b.config;
    unique = tt;
    few = omega arith;
    short_logs = λ k t h. cc;
    short_traces = λ k t h. cc;
  }
