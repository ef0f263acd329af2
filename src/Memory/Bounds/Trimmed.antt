-- ===== src/Memory/Bounds/Trimmed.antt =====
-- src/db/inmemory-store.ts: the length of what is trimmed, and maps whose entries are within a limit.
use spane.Base.{
  ℕ, zero, suc, ◌-◌, ◌≤◌, ◌<◌, String, ◌≡◌, inl, inr, some, List, [], ◌∷◌, length, Option-cases,
  arith,
}
use spane.Base.Dict.{Dict, get, put, get-put}
use spane.Types.Execution.{ExecutionLog, ExecutionSpan, ExecutionTrace}
use spane.Memory.State.{Store, Timestamped}
use spane.Memory.Cleanup.{drop, trim, trim_logs, trim_traces, trim_all, cleanup}
use spane.Memory.Cleanup.Limit.{config-evict, config-remove_expired}
use spane.Memory.Observability.{update_first}

module _ {ℓ} {A : Type ℓ} where
  pub length-drop : (n : ℕ) (xs : List A) → length (drop n xs) ≡ length xs - n
  length-drop zero xs = omega arith
  length-drop (suc n) [] = omega arith
  length-drop (suc n) (x ∷ xs) = omega (arith, length-drop n xs)

  -- What is trimmed to a limit above zero has at most that length.
  pub length-trim-le : (n : ℕ) (xs : List A) → 0 < n → length (trim n xs) ≤ n
  unfolding trim
  length-trim-le zero xs h = absurd (omega arith)
  length-trim-le (suc n) xs h = ground (arith, length-drop (length xs - suc n) xs)

pub length-update_first :
    (span_id : String) (update : ExecutionSpan → ExecutionSpan) (xs ys : List ExecutionSpan)
    → update_first span_id update xs ≡ some ys
    → length ys ≡ length xs
unfolding update_first
length-update_first span_id update [] ys h = cc
length-update_first span_id update (x ∷ xs) ys h =
    elim (Option-cases (update_first span_id update xs)) [
      | inl e ↦ ground arith
      | inr (zs, e) ↦ ground (arith, length-update_first span_id update xs zs e)
    ]

module _ {A : Type 0} (size : A → ℕ) (limit : ℕ) where
  abbrev pub Short : Dict (Timestamped A) → Type 0
  Short d = (k : String) (t : Timestamped A) → get d k ≡ some t → size t.value ≤ limit

  pub Short-put :
      (d : Dict (Timestamped A)) (k : String) (t : Timestamped A)
      → size t.value ≤ limit
      → Short d
      → Short (put d k t)
  Short-put d k t h s j u e = ground (arith, get-put d k t j, s j u)

trim_logs-Short :
    (now limit : ℕ) (ls : Dict (Timestamped (List ExecutionLog)))
    → 0 < limit
    → Short length limit (trim_logs now limit ls)
unfolding trim_logs get
trim_logs-Short now limit [] h k t e = cc
trim_logs-Short now limit ((j, u) ∷ ls) h k t e =
    ground (arith, trim_logs-Short now limit ls h k t, length-trim-le limit u.value h)

trim_traces-Short :
    (now limit : ℕ) (ts : Dict (Timestamped ExecutionTrace))
    → 0 < limit
    → Short (λ t. length t.spans) limit (trim_traces now limit ts)
unfolding trim_traces get
trim_traces-Short now limit [] h k t e = cc
trim_traces-Short now limit ((j, u) ∷ ts) h k t e =
    ground (arith, trim_traces-Short now limit ts h k t, length-trim-le limit u.value.spans h)

pub cleanup-Short-logs :
    (now : ℕ) (s : Store)
    → 0 < s.config.max_logs_per_execution
    → Short length s.config.max_logs_per_execution (cleanup now s).logs
unfolding cleanup trim_all
cleanup-Short-logs now s h =
    rw (config-evict, config-remove_expired)
      (trim_logs-Short now s.config.max_logs_per_execution _ h)

pub cleanup-Short-traces :
    (now : ℕ) (s : Store)
    → 0 < s.config.max_spans_per_execution
    → Short (λ t. length t.spans) s.config.max_spans_per_execution (cleanup now s).traces
unfolding cleanup trim_all
cleanup-Short-traces now s h =
    rw (config-evict, config-remove_expired)
      (trim_traces-Short now s.config.max_spans_per_execution _ h)
