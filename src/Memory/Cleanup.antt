-- ===== src/Memory/Cleanup.antt =====
-- InMemoryExecutionStore.cleanup: expired executions, the limit on executions with eviction of the
-- least recently used ones, and the limits on logs and spans.
pub mod Forget
pub mod Sorted
pub mod Limit
pub mod Expiry
use spane.Base.{
  ℕ, zero, suc, ◌-◌, String, Bool, true, false, not, Option, none, some, List, [], ◌∷◌, length, ltb,
  leb, ◌&&◌, if◌then◌else◌,
}
use spane.Base.Dict.{Dict, remove}
use spane.Types.Execution.{ExecutionState, ExecutionLog, ExecutionTrace, Status}
use spane.Memory.State.{Store, StoreConfig, Timestamped, wrap}

abbrev pub is_terminal : Status → Bool
is_terminal Status.completed = true
is_terminal Status.failed = true
is_terminal Status.cancelled = true
is_terminal Status.running = false
is_terminal Status.paused = false

-- `value.completedAt?.getTime() || lastAccessedAt`
abbrev pub reference_time : Option ℕ → ℕ → ℕ
reference_time none accessed = accessed
reference_time (some zero) accessed = accessed
reference_time (some (suc t)) accessed = suc t

-- A time in the future gives age 0 where the source has a negative age: neither exceeds the TTL.
unfoldable pub is_expired : ℕ → ℕ → Timestamped ExecutionState → Bool
is_expired ttl now t =
    is_terminal t.value.status
    && ltb ttl (now - reference_time t.value.completed_at t.last_accessed_at)

-- The three maps lose the execution.
abbrev pub forget : Store → String → Store
forget s id = record s {
  executions = remove s.executions id;
  logs = remove s.logs id;
  traces = remove s.traces id;
}

unfoldable pub forget_all : List String → Store → Store
forget_all [] s = s
forget_all (id ∷ rest) s = forget_all rest (forget s id)

unfoldable pub expired_ids : ℕ → ℕ → Dict (Timestamped ExecutionState) → List String
expired_ids ttl now [] = []
expired_ids ttl now ((id, t) ∷ rest) =
    let more = expired_ids ttl now rest in if is_expired ttl now t then id ∷ more else more

unfoldable pub remove_expired : ℕ → Store → Store
remove_expired now s = forget_all (expired_ids s.config.completed_execution_ttl now s.executions) s

-- the stable sort by `lastAccessedAt`, ascending
unfoldable pub insert_by_access :
    String × Timestamped ExecutionState
    → Dict (Timestamped ExecutionState)
    → Dict (Timestamped ExecutionState)
insert_by_access (id, t) [] = (id, t) ∷ []
insert_by_access (id, t) ((j, u) ∷ rest) =
    if leb t.last_accessed_at u.last_accessed_at
    then (id, t) ∷ (j, u) ∷ rest
    else (j, u) ∷ insert_by_access (id, t) rest

unfoldable pub sort_by_access :
    Dict (Timestamped ExecutionState) → Dict (Timestamped ExecutionState)
sort_by_access [] = []
sort_by_access (e ∷ es) = insert_by_access e (sort_by_access es)

-- the ids of the first `n` entries
unfoldable pub first_ids : ℕ → Dict (Timestamped ExecutionState) → List String
first_ids zero es = []
first_ids (suc n) [] = []
first_ids (suc n) ((id, t) ∷ es) = id ∷ first_ids n es

unfoldable pub evict : Store → Store
evict s =
    if ltb s.config.max_executions (length s.executions)
    then forget_all
        (first_ids (length s.executions - s.config.max_executions) (sort_by_access s.executions)) s
    else s

module _ {ℓ} {A : Type ℓ} where
  abbrev pub drop : ℕ → List A → List A
  drop zero xs = xs
  drop (suc n) [] = []
  drop (suc n) (x ∷ xs) = drop n xs

  -- `if (array.length > n) array.slice(-n)`: `slice(-0)` is the whole array
  unfoldable pub trim : ℕ → List A → List A
  trim zero xs = xs
  trim (suc n) xs = if ltb (suc n) (length xs) then drop (length xs - suc n) xs else xs

unfoldable pub trim_logs :
    ℕ → ℕ → Dict (Timestamped (List ExecutionLog)) → Dict (Timestamped (List ExecutionLog))
trim_logs now limit [] = []
trim_logs now limit ((id, t) ∷ rest) =
    (id, if ltb limit (length t.value) then wrap now (trim limit t.value) else t)
    ∷ trim_logs now limit rest

unfoldable pub trim_traces :
    ℕ → ℕ → Dict (Timestamped ExecutionTrace) → Dict (Timestamped ExecutionTrace)
trim_traces now limit [] = []
trim_traces now limit ((id, t) ∷ rest) =
    (
      id,
      if ltb limit (length t.value.spans)
          then wrap now (record t.value { spans = trim limit t.value.spans })
          else t,
    )
    ∷ trim_traces now limit rest

unfoldable pub trim_all : ℕ → Store → Store
trim_all now s = record s {
  logs = trim_logs now s.config.max_logs_per_execution s.logs;
  traces = trim_traces now s.config.max_spans_per_execution s.traces;
}

unfoldable pub cleanup : ℕ → Store → Store
cleanup now s = trim_all now (evict (remove_expired now s))
