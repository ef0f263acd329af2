-- ===== src/Memory/Cleanup/Sorted.antt =====
-- src/db/inmemory-store.ts: the sort by last access.
use spane.Base.{
  ℕ, zero, suc, ◌≤◌, String, ◌≡◌, refl, ◌∙◌, inl, inr, true, false, none, some, [], ◌∷◌, has,
  length, leb, Bool-cases, arith, ◌==◌, eq_iff, if◌then◌else◌,
}
use spane.Base.Dict.{Dict, get}
use spane.Base.Dict.Unique.{Unique}
use spane.Types.Execution.{ExecutionState}
use spane.Memory.State.{Timestamped}
use spane.Memory.Cleanup.{insert_by_access, sort_by_access, first_ids}

abbrev pub Entries : Type 0
Entries = Dict (Timestamped ExecutionState)

length-insert :
    (id : String) (t : Timestamped ExecutionState) (es : Entries)
    → length (insert_by_access (id, t) es) ≡ suc (length es)
unfolding insert_by_access
length-insert id t [] = refl
length-insert id t ((j, u) ∷ es) = ground (arith, length-insert id t es)

pub length-sort : (es : Entries) → length (sort_by_access es) ≡ length es
unfolding sort_by_access
length-sort [] = refl
length-sort ((id, t) ∷ es) = omega (arith, length-insert id t (sort_by_access es), length-sort es)

get-insert :
    (id : String) (t : Timestamped ExecutionState) (es : Entries) (k : String)
    → get es id ≡ none
    → get (insert_by_access (id, t) es) k ≡ (if id == k then some t else get es k)
unfolding insert_by_access get
get-insert id t [] k h = refl
get-insert id t ((j, u) ∷ es) k h =
    ground (arith, get-insert id t es k, eq_iff j id, eq_iff j k, eq_iff id k)

-- The sorted list has the same entries.
pub get-sort : (es : Entries) (k : String) → Unique es → get (sort_by_access es) k ≡ get es k
unfolding sort_by_access get
get-sort [] k u = refl
get-sort ((id, t) ∷ es) k u =
    ground
      (arith, get-insert id t (sort_by_access es) k, get-sort es k u.1, get-sort es id u.1, u.0)

Unique-insert :
    (id : String) (t : Timestamped ExecutionState) (es : Entries)
    → get es id ≡ none
    → Unique es
    → Unique (insert_by_access (id, t) es)
unfolding insert_by_access get
Unique-insert id t [] h u = (refl, tt)
Unique-insert id t ((j, v) ∷ es) h u =
    elim (Bool-cases (leb t.last_accessed_at v.last_accessed_at)) [
      | inl e ↦ rw e (h, u)
      | inr n ↦ rw n (
        ground (arith, get-insert id t es j, u.0, eq_iff id j, eq_iff j id),
        Unique-insert id t es (ground arith) u.1,
      )
    ]

pub Unique-sort : (es : Entries) → Unique es → Unique (sort_by_access es)
unfolding sort_by_access
Unique-sort [] u = tt
Unique-sort ((id, t) ∷ es) u =
    Unique-insert id t (sort_by_access es) (get-sort es id u.1 ∙ u.0) (Unique-sort es u.1)

-- every entry was accessed at `n` or later
abbrev pub From : ℕ → Entries → Type 0
From n [] = Unit
From n ((k, t) ∷ es) = (n ≤ t.last_accessed_at) × From n es

abbrev pub Sorted : Entries → Type 0
Sorted [] = Unit
Sorted ((k, t) ∷ es) = From t.last_accessed_at es × Sorted es

From-le : {m n : ℕ} (es : Entries) → m ≤ n → From n es → From m es
From-le [] h f = tt
From-le ((k, t) ∷ es) h f = (omega arith, From-le es h f.1)

From-insert :
    {n : ℕ} (id : String) (t : Timestamped ExecutionState) (es : Entries)
    → n ≤ t.last_accessed_at
    → From n es
    → From n (insert_by_access (id, t) es)
unfolding insert_by_access
From-insert id t [] h f = (h, tt)
From-insert id t ((j, u) ∷ es) h f = elim (Bool-cases (leb t.last_accessed_at u.last_accessed_at)) [
  | inl e ↦ rw e (h, f)
  | inr n ↦ rw n (f.0, From-insert id t es h f.1)
]

Sorted-insert :
    (id : String) (t : Timestamped ExecutionState) (es : Entries)
    → Sorted es
    → Sorted (insert_by_access (id, t) es)
unfolding insert_by_access
Sorted-insert id t [] s = (tt, tt)
Sorted-insert id t ((j, u) ∷ es) s = elim (Bool-cases (leb t.last_accessed_at u.last_accessed_at)) [
  | inl e ↦ rw e ((ground arith, From-le es (ground arith) s.0), s)
  | inr n ↦ rw n (From-insert id t es (ground arith) s.0, Sorted-insert id t es s.1)
]

pub Sorted-sort : (es : Entries) → Sorted (sort_by_access es)
unfolding sort_by_access
Sorted-sort [] = tt
Sorted-sort ((id, t) ∷ es) = Sorted-insert id t (sort_by_access es) (Sorted-sort es)

From-get :
    {n : ℕ} (es : Entries) (k : String) (t : Timestamped ExecutionState)
    → From n es
    → get es k ≡ some t
    → n ≤ t.last_accessed_at
unfolding get
From-get [] k t f h = cc
From-get ((j, u) ∷ es) k t f h = ground (arith, From-get es k t f.1, f.0)

-- Of a sorted list with unique keys, the entries among the first `n` were accessed no later than the
-- others.
pub first_ids-oldest :
    (n : ℕ) (es : Entries) (i j : String) (t u : Timestamped ExecutionState)
    → Sorted es
    → get es i ≡ some t
    → has (first_ids n es) i ≡ false
    → get es j ≡ some u
    → has (first_ids n es) j ≡ true
    → u.last_accessed_at ≤ t.last_accessed_at
unfolding first_ids get has
first_ids-oldest zero es i j t u s hi ni hj nj = cc
first_ids-oldest (suc n) [] i j t u s hi ni hj nj = cc
first_ids-oldest (suc n) ((k, v) ∷ es) i j t u s hi ni hj nj =
    ground (arith, first_ids-oldest n es i j t u s.1, From-get es i t s.0)
