-- ===== src/Memory/Cleanup/Limit.antt =====
-- src/db/inmemory-store.ts: the eviction of executions.
use spane.Base.{
  ℕ, zero, suc, ◌+◌, ◌-◌, ◌≤◌, String, ◌≡◌, refl, ◌∙◌, subst, ◌≢◌, inl, inr, true, false, none,
  some, List, [], ◌∷◌, has, length, ltb, Bool-cases, arith, eq_iff,
}
use spane.Base.Dict.{get, remove, get-remove}
use spane.Base.Dict.Unique.{Unique, Unique-remove, length-remove}
use spane.Types.Execution.{ExecutionState}
use spane.Memory.State.{Store, StoreConfig, Timestamped}
use spane.Memory.Cleanup.{
  forget, forget_all, sort_by_access, first_ids, remove_expired, expired_ids, evict, trim_all,
  cleanup,
}
use spane.Memory.Cleanup.Forget.{get-forget_all, Unique-forget_all, config-forget_all}
use spane.Memory.Cleanup.Sorted.{
  Entries, length-sort, get-sort, Unique-sort, Sorted-sort, first_ids-oldest,
}

abbrev Distinct : List String → Type 0
Distinct [] = Unit
Distinct (id ∷ ids) = (has ids id ≡ false) × Distinct ids

first_ids-present :
    (n : ℕ) (es : Entries) (k : String) → has (first_ids n es) k ≡ true → get es k ≢ none
unfolding first_ids get has
first_ids-present zero es k h = cc
first_ids-present (suc n) [] k h = cc
first_ids-present (suc n) ((j, t) ∷ es) k h = ground (arith, first_ids-present n es k)

first_ids-Distinct : (n : ℕ) (es : Entries) → Unique es → Distinct (first_ids n es)
unfolding first_ids
first_ids-Distinct zero es u = tt
first_ids-Distinct (suc n) [] u = tt
first_ids-Distinct (suc n) ((j, t) ∷ es) u = (
  elim (Bool-cases (has (first_ids n es) j)) [
    | inl h ↦ absurd (first_ids-present n es j h u.0)
    | inr h ↦ h
  ],
  first_ids-Distinct n es u.1,
)

length-first_ids : (n : ℕ) (es : Entries) → n ≤ length es → length (first_ids n es) ≡ n
unfolding first_ids
length-first_ids zero es h = refl
length-first_ids (suc n) [] h = absurd (omega arith)
length-first_ids (suc n) ((j, t) ∷ es) h = omega (arith, length-first_ids n es (omega arith))

length-forget_all :
    (ids : List String) (s : Store)
    → Distinct ids
    → Unique s.executions
    → ((k : String) → has ids k ≡ true → get s.executions k ≢ none)
    → length (forget_all ids s).executions + length ids ≡ length s.executions
unfolding forget_all has
length-forget_all [] s d u h = omega arith
length-forget_all (id ∷ ids) s d u h = omega (
  arith,
  length-forget_all ids (forget s id) d.1 (Unique-remove s.executions id u) later,
  length-remove s.executions id u (h id (ground (arith, eq_iff id id))),
)
  where
    later : (k : String) → has ids k ≡ true → get (remove s.executions id) k ≢ none
    later k m = rw get-remove (ground (arith, h k, eq_iff id k, d.0))

evicted : Store → List String
evicted s = first_ids (length s.executions - s.config.max_executions) (sort_by_access s.executions)

-- After the eviction the store is within its limit.
pub length-evict-le :
    (s : Store) → Unique s.executions → length (evict s).executions ≤ s.config.max_executions
unfolding evict evicted
length-evict-le s u = elim (Bool-cases (ltb s.config.max_executions (length s.executions))) [
  | inl over ↦ rw over (
      ground (
        arith,
        length-forget_all (evicted s) s
            (first_ids-Distinct (length s.executions - s.config.max_executions)
              (sort_by_access s.executions) (Unique-sort s.executions u))
            u
            (λ k h.
              subst (λ o. o ≢ none) (get-sort s.executions k u)
                (first_ids-present (length s.executions - s.config.max_executions)
                  (sort_by_access s.executions) k h)),
        length-first_ids (length s.executions - s.config.max_executions)
            (sort_by_access s.executions) (ground (arith, length-sort s.executions)),
      ))
  | inr few ↦ rw few (ground arith)
]

pub Unique-evict : (s : Store) → Unique s.executions → Unique (evict s).executions
unfolding evict
Unique-evict s u = elim (Bool-cases (ltb s.config.max_executions (length s.executions))) [
  | inl over ↦ rw over (Unique-forget_all _ s u)
  | inr few ↦ rw few u
]

-- In a store with one entry for an id, of two executions of which the eviction keeps one and drops the
-- other, the one that it drops was not accessed later.
pub evict-least_recent :
    (s : Store) (kept dropped : String) (t u : Timestamped ExecutionState)
    → Unique s.executions
    → get s.executions kept ≡ some t
    → get (evict s).executions kept ≡ some t
    → get s.executions dropped ≡ some u
    → get (evict s).executions dropped ≡ none
    → u.last_accessed_at ≤ t.last_accessed_at
unfolding evict evicted
evict-least_recent s kept dropped t u unique hk ek hd ed =
    elim (Bool-cases (ltb s.config.max_executions (length s.executions))) [
      | inl over ↦
          first_ids-oldest (length s.executions - s.config.max_executions)
            (sort_by_access s.executions) kept dropped t u (Sorted-sort s.executions)
            (get-sort s.executions kept unique ∙ hk)
            (ground (arith, get-forget_all (evicted s) s kept))
            (get-sort s.executions dropped unique ∙ hd)
            (ground (arith, get-forget_all (evicted s) s dropped))
      | inr few ↦ ground arith
    ]

pub config-evict : (s : Store) → (evict s).config ≡ s.config
unfolding evict
config-evict s = elim (Bool-cases (ltb s.config.max_executions (length s.executions))) [
  | inl over ↦ rw over (config-forget_all _ s)
  | inr few ↦ rw few refl
]

pub Unique-remove_expired :
    (now : ℕ) (s : Store) → Unique s.executions → Unique (remove_expired now s).executions
unfolding remove_expired
Unique-remove_expired now s u = Unique-forget_all _ s u

pub config-remove_expired : (now : ℕ) (s : Store) → (remove_expired now s).config ≡ s.config
unfolding remove_expired
config-remove_expired now s =
    config-forget_all (expired_ids s.config.completed_execution_ttl now s.executions) s

-- After a cleanup of a store with one entry for an id there are no more executions than the configuration
-- allows.
pub length-cleanup-le :
    (now : ℕ) (s : Store)
    → Unique s.executions
    → length (cleanup now s).executions ≤ s.config.max_executions
unfolding cleanup trim_all
length-cleanup-le now s u =
    subst (λ (c : StoreConfig). length (evict (remove_expired now s)).executions ≤ c.max_executions)
      (config-remove_expired now s)
      (length-evict-le (remove_expired now s) (Unique-remove_expired now s u))

pub Unique-cleanup : (now : ℕ) (s : Store) → Unique s.executions → Unique (cleanup now s).executions
unfolding cleanup trim_all
Unique-cleanup now s u = Unique-evict (remove_expired now s) (Unique-remove_expired now s u)

pub config-cleanup : (now : ℕ) (s : Store) → (cleanup now s).config ≡ s.config
unfolding cleanup trim_all
config-cleanup now s = config-evict (remove_expired now s) ∙ config-remove_expired now s
