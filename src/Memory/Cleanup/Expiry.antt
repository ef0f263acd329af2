-- ===== src/Memory/Cleanup/Expiry.antt =====
-- src/db/inmemory-store.ts: the executions that a cleanup removes, with their logs and traces.
use spane.Base.{
  ℕ, zero, suc, ◌+◌, ◌-◌, ◌&&◌, true, eqb, ◌≤◌, String, ◌≡◌, refl, ap, ◌≢◌, inl, inr, Bool, false,
  Option, none, some, List, [], ◌∷◌, has, length, ltb, Bool-cases, Option-cases, arith, eq_iff,
  if◌then◌else◌,
}
use spane.Base.Dict.{Dict, get}
use spane.Base.Dict.Unique.{Unique}
use spane.Types.Execution.{ExecutionState, ExecutionLog, ExecutionTrace, Status}
use spane.Memory.State.{Store, StoreConfig, Timestamped}
use spane.Memory.Cleanup.{
  is_terminal, reference_time, is_expired, expired_ids, forget_all, remove_expired, evict,
  trim_logs, trim_traces, trim_all, cleanup,
}
use spane.Memory.Cleanup.Forget.{
  get-forget_all, get-logs-forget_all, get-traces-forget_all, length-forget_all-le,
}
use spane.Memory.Cleanup.Sorted.{Entries}
use spane.Memory.Cleanup.Limit.{config-remove_expired}

abbrev pub expired_entry : ℕ → ℕ → Option (Timestamped ExecutionState) → Bool
expired_entry ttl now none = false
expired_entry ttl now (some t) = is_expired ttl now t

has-expired_ids_absent :
    (ttl now : ℕ) (es : Entries) (k : String)
    → get es k ≡ none
    → has (expired_ids ttl now es) k ≡ false
unfolding expired_ids get has
has-expired_ids_absent ttl now [] k h = refl
has-expired_ids_absent ttl now ((j, t) ∷ es) k h =
    ground (arith, has-expired_ids_absent ttl now es k)

has-expired_ids :
    (ttl now : ℕ) (es : Entries) (k : String)
    → Unique es
    → has (expired_ids ttl now es) k ≡ expired_entry ttl now (get es k)
unfolding expired_ids get has
has-expired_ids ttl now [] k u = refl
has-expired_ids ttl now ((j, t) ∷ es) k u =
    ground
      (arith, has-expired_ids ttl now es k u.1, has-expired_ids_absent ttl now es j u.0, eq_iff j k)

get-remove_expired :
    (now : ℕ) (s : Store) (k : String)
    → Unique s.executions
    → get (remove_expired now s).executions k ≡ (
        if expired_entry s.config.completed_execution_ttl now (get s.executions k)
        then none
        else get s.executions k)
unfolding remove_expired
get-remove_expired now s k u =
    rw get-forget_all
      (rw (has-expired_ids s.config.completed_execution_ttl now s.executions k u) refl)

evict_within : (s : Store) → length s.executions ≤ s.config.max_executions → evict s ≡ s
unfolding evict
evict_within s h =
    let few : ltb s.config.max_executions (length s.executions) ≡ false = ground arith in
    rw few refl

length-remove_expired-le :
    (now : ℕ) (s : Store) → length (remove_expired now s).executions ≤ length s.executions
unfolding remove_expired
length-remove_expired-le now s = length-forget_all-le _ s

-- an execution that will not run any more
abbrev pub is_over : Status → Bool
is_over Status.completed = true
is_over Status.failed = true
is_over Status.cancelled = true
is_over Status.running = false
is_over Status.paused = false

-- when an execution was completed, or last read where that is not known
abbrev pub since : Option ℕ → ℕ → ℕ
since none accessed = accessed
since (some t) accessed = if eqb t 0 then accessed else t

-- an execution that is over, for longer than the TTL
abbrev pub outlived : ℕ → ℕ → Option (Timestamped ExecutionState) → Bool
outlived ttl now none = false
outlived ttl now (some t) =
    is_over t.value.status && ltb (since t.value.completed_at t.last_accessed_at + ttl) now

outlived-expired_entry :
    (ttl now : ℕ) (o : Option (Timestamped ExecutionState))
    → expired_entry ttl now o ≡ outlived ttl now o
unfolding is_expired
outlived-expired_entry ttl now none = refl
outlived-expired_entry ttl now (some t) = λ i. over t.value.status i && age t.value.completed_at i
  where
    over : (s : Status) → is_terminal s ≡ is_over s
    over Status.completed = refl
    over Status.failed = refl
    over Status.cancelled = refl
    over Status.running = refl
    over Status.paused = refl

    age :
        (c : Option ℕ)
        → ltb ttl (now - reference_time c t.last_accessed_at)
          ≡ ltb (since c t.last_accessed_at + ttl) now
    age none = ground arith
    age (some zero) = ground arith
    age (some (suc n)) = ground arith

-- In a store within its limit and with one entry for an id, a cleanup removes exactly the executions that
-- are completed, failed or cancelled and whose completion, or last access where no completion is known, is
-- longer ago than the TTL; it leaves the entries of all others as they are.
pub get-cleanup :
    (now : ℕ) (s : Store) (k : String)
    → Unique s.executions
    → length s.executions ≤ s.config.max_executions
    → get (cleanup now s).executions k ≡ (
        if outlived s.config.completed_execution_ttl now (get s.executions k)
        then none
        else get s.executions k)
unfolding cleanup trim_all
get-cleanup now s k u h =
    rw
      (
        evict_within (remove_expired now s) small,
        ← outlived-expired_entry s.config.completed_execution_ttl now (get s.executions k),
      )
      (get-remove_expired now s k u)
  where
    limit : (remove_expired now s).config.max_executions ≡ s.config.max_executions
    limit = ap (λ (c : StoreConfig). c.max_executions) (config-remove_expired now s)

    small : length (remove_expired now s).executions ≤ (remove_expired now s).config.max_executions
    small = omega (arith, limit, length-remove_expired-le now s)

get-trim_logs :
    (now limit : ℕ) (ls : Dict (Timestamped (List ExecutionLog))) (k : String)
    → get ls k ≡ none
    → get (trim_logs now limit ls) k ≡ none
unfolding trim_logs get
get-trim_logs now limit [] k h = refl
get-trim_logs now limit ((j, t) ∷ ls) k h = ground (arith, get-trim_logs now limit ls k)

get-trim_traces :
    (now limit : ℕ) (ts : Dict (Timestamped ExecutionTrace)) (k : String)
    → get ts k ≡ none
    → get (trim_traces now limit ts) k ≡ none
unfolding trim_traces get
get-trim_traces now limit [] k h = refl
get-trim_traces now limit ((j, t) ∷ ts) k h = ground (arith, get-trim_traces now limit ts k)

-- What left the executions left the logs and the traces.
abbrev Follows : Store → Store → Type 0
Follows s s' =
    (k : String)
    → get s.executions k ≢ none
    → get s'.executions k ≡ none
    → (get s'.logs k ≡ none) × (get s'.traces k ≡ none)

abbrev Shrinks : Store → Store → Type 0
Shrinks s s' =
    (k : String)
    → (get s.logs k ≡ none → get s'.logs k ≡ none)
      × (get s.traces k ≡ none → get s'.traces k ≡ none)

forget_all-Follows : (ids : List String) (s : Store) → Follows s (forget_all ids s)
forget_all-Follows ids s k h g =
    ground
      (arith, get-forget_all ids s k, get-logs-forget_all ids s k, get-traces-forget_all ids s k)

forget_all-Shrinks : (ids : List String) (s : Store) → Shrinks s (forget_all ids s)
forget_all-Shrinks ids s k =
    ground (arith, get-logs-forget_all ids s k, get-traces-forget_all ids s k)

evict-Follows : (s : Store) → Follows s (evict s)
unfolding evict
evict-Follows s = elim (Bool-cases (ltb s.config.max_executions (length s.executions))) [
  | inl over ↦ rw over (forget_all-Follows _ s)
  | inr few ↦ rw few (λ k h g. absurd (h g))
]

evict-Shrinks : (s : Store) → Shrinks s (evict s)
unfolding evict
evict-Shrinks s = elim (Bool-cases (ltb s.config.max_executions (length s.executions))) [
  | inl over ↦ rw over (forget_all-Shrinks _ s)
  | inr few ↦ rw few (λ k. (λ h. h, λ h. h))
]

-- A cleanup removes the logs and the trace of each execution that it removes, expired or evicted.
pub cleanup-Follows :
    (now : ℕ) (s : Store) (k : String)
    → get s.executions k ≢ none
    → get (cleanup now s).executions k ≡ none
    → (get (cleanup now s).logs k ≡ none) × (get (cleanup now s).traces k ≡ none)
unfolding cleanup trim_all remove_expired
cleanup-Follows now s k h g = elim (Option-cases (get (remove_expired now s).executions k)) [
  | inl gone ↦
      let (logs, traces) = forget_all-Follows _ s k h gone in
      let shrinks = evict-Shrinks (remove_expired now s) k in
      (get-trim_logs _ _ _ k (shrinks.0 logs), get-trim_traces _ _ _ k (shrinks.1 traces))
  | inr (t, stays) ↦
      let (logs, traces) = evict-Follows (remove_expired now s) k (λ e. cc (e, stays)) g in
      (get-trim_logs _ _ _ k logs, get-trim_traces _ _ _ k traces)
]
