-- ===== src/Memory/Bounds/Writes.antt =====
-- src/db/inmemory-store.ts: the limits under cleanups and the methods on executions.
use spane.Base.{
  ℕ, ◌*◌, ◌<◌, String, ◌≡◌, ◌∙◌, ap, inl, inr, Option, length, ltb, Option-cases, Bool-cases, arith,
}
use spane.Base.Dict.{Dict, get, put}
use spane.Base.Dict.Unique.{Unique, Unique-put, length-put_found}
use spane.Types.Json.{Value}
use spane.Types.Execution.{ExecutionState}
use spane.Memory.State.{Store, StoreConfig, Timestamped, wrap}
use spane.Memory.Cleanup.{cleanup}
use spane.Memory.Cleanup.Limit.{length-cleanup-le, Unique-cleanup, config-cleanup}
use spane.Memory.Executions.{create_execution, modify_execution, new_execution}
use spane.Memory.Bounds.Trimmed.{cleanup-Short-logs, cleanup-Short-traces}
use spane.Memory.Bounds.{IsBounded, max_exec, max_logs, max_spans}

module _ (c : StoreConfig) (log_limit : 0 < c.max_logs_per_execution)
    (span_limit : 0 < c.max_spans_per_execution) where
  pub cleanup-IsBounded :
      (now : ℕ) (s : Store) → s.config ≡ c → Unique s.executions → IsBounded c (cleanup now s)
  cleanup-IsBounded now s e u = record {
    config = config-cleanup now s ∙ e;
    unique = Unique-cleanup now s u;
    few = omega (arith, length-cleanup-le now s u, ap max_exec e);
    short_logs = λ k t h. omega (
      arith,
      cleanup-Short-logs now s (omega (arith, ap max_logs e, log_limit)) k t h,
      ap max_logs e,
    );
    short_traces = λ k t h. omega (
      arith,
      cleanup-Short-traces now s (omega (arith, ap max_spans e, span_limit)) k t h,
      ap max_spans e,
    );
  }

  pub create_execution-IsBounded :
      (now : ℕ) (id workflow_id : String) (parent : Option String) (depth : ℕ) (initial : Value)
      (s : Store)
      → IsBounded c s
      → IsBounded c (create_execution now id workflow_id parent depth initial s)
  unfolding create_execution
  create_execution-IsBounded now id workflow_id parent depth initial s b =
      elim (Bool-cases (ltb (9 * s.config.max_executions) (10 * length added))) [
        | inl near ↦
            rw near (cleanup-IsBounded now (record s { executions = added }) b.config unique)
        | inr far ↦ rw far (record {
          config = b.config;
          unique = unique;
          few = ground (arith, ap max_exec b.config);
          short_logs = b.short_logs;
          short_traces = b.short_traces;
        })
      ]
    where
      added : Dict (Timestamped ExecutionState)
      added = put s.executions id (wrap now (new_execution now id workflow_id parent depth initial))

      unique : Unique added
      unique = Unique-put s.executions id _ b.unique

  pub modify_execution-IsBounded :
      (now : ℕ) (id : String) (f : ExecutionState → ExecutionState) (s : Store)
      → IsBounded c s
      → IsBounded c (modify_execution now id f s)
  unfolding modify_execution
  modify_execution-IsBounded now id f s b = elim (Option-cases (get s.executions id)) [
    | inl e ↦ rw e b
    | inr (t, e) ↦ rw e (record {
      config = b.config;
      unique = Unique-put s.executions id _ b.unique;
      few =
          omega
            (arith, length-put_found s.executions id _ (λ none_there. cc (none_there, e)), b.few);
      short_logs = b.short_logs;
      short_traces = b.short_traces;
    })
  ]
