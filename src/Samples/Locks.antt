-- ===== src/Samples/Locks.antt =====
-- The theorems on locks, at a server whose keys do not expire.
use Prim.Native.String.{String}
use spane.Base.{
  ℕ, ◌<◌, ◌≡◌, refl, ◌∙◌, ap, inl, inr, Bool, true, false, Bool-cases, none, some, Option-cases,
  List, [], ◌∷◌, ◌==◌, if◌then◌else◌, arith, eq_iff,
}
use spane.Base.Dict.{Dict, get, put, remove, get-put, get-remove}
use spane.Lock.Commands.{Redis, is_free, is_present, holds, count_of}
use spane.Lock.{absent, Outcome, thrown, Renewal, lock_key, normalize_options, with_lock, acquire}
use spane.Lock.Refines.{
  LockCall, acquire_call, release_call, extend_call, perform_all, specified_all, table_of,
  perform_all_refines,
}
use spane.Lock.Exclusive.{perform_all_exclusive}
use spane.Lock.Released.{section_of, with_lock_releases}

abbrev pub set_key : String → String → ℕ → Dict String → Bool × Dict String
set_key k v ttl s = elim (get s k) [ none ↦ (true, put s k v) | some w ↦ (false, s) ]

abbrev pub delete_key : String → Dict String → ℕ × Dict String
delete_key k s = (count_of (is_present (get s k)), remove s k)

abbrev pub expire_key : String → ℕ → Dict String → ℕ × Dict String
expire_key k ttl s = (count_of (is_present (get s k)), s)

abbrev pub count_key : String → Dict String → ℕ
count_key k s = count_of (is_present (get s k))

pub set_key_answer :
    (k v : String) (ttl : ℕ) (s : Dict String) → 0 < ttl → (set_key k v ttl s).0 ≡ is_free (get s k)
set_key_answer k v ttl s h = elim (Option-cases (get s k)) [
  | inl e ↦ rw (e, set_key) refl
  | inr (w, e) ↦ rw (e, set_key) refl
]

pub set_key_value :
    (k v : String) (ttl : ℕ) (s : Dict String) (j : String)
    → 0 < ttl
    → get (set_key k v ttl s).1 j
      ≡ (if k == j then if is_free (get s j) then some v else get s j else get s j)
set_key_value k v ttl s j h = elim (Bool-cases (k == j)) [
  | inl same ↦
      let here = ap (get s) ((eq_iff k j).0 same) in
      elim (Option-cases (get s j)) [
        | inl e ↦ rw (here ∙ e, set_key) (rw (get-put, same, e) refl)
        | inr (w, e) ↦ rw (here ∙ e, set_key) (rw (same, e) refl)
      ]
  | inr other ↦ elim (Option-cases (get s k)) [
    | inl e ↦ rw (e, set_key) (rw (get-put, other) refl)
    | inr (w, e) ↦ rw (e, set_key) (rw other refl)
  ]
]

abbrev pub redis : Redis
redis = record {
  Server = Dict String;
  value_of = get;
  set_nx = set_key;
  del = delete_key;
  pexpire = expire_key;
  exists = count_key;
  set_nx_answer = set_key_answer;
  set_nx_value = set_key_value;
  del_answer = λ k s. refl;
  del_value = λ k s j. get-remove s k j;
  pexpire_answer = λ k ttl s. refl;
  pexpire_value = λ k ttl s j h. refl;
  exists_answer = λ k s. refl;
}

-- two instances compete for a lock, and the first releases it
abbrev contest : List LockCall
contest =
    acquire_call "node" "t-1" none
    ∷ acquire_call "node" "t-2" none
    ∷ release_call "node" "t-2"
    ∷ extend_call "node" "t-1" 5000
    ∷ release_call "node" "t-1"
    ∷ []

perform_all_refines_example :
    ((perform_all redis contest []).0 ≡ (specified_all contest (table_of redis [])).0)
    × (table_of redis (perform_all redis contest []).1
        ≡ (specified_all contest (table_of redis [])).1)
perform_all_refines_example = perform_all_refines redis contest [] (omega arith)

abbrev held : Dict String
held = ("lock:node", "t-1") ∷ []

abbrev rivals : List LockCall
rivals = acquire_call "node" "t-2" none ∷ release_call "node" "t-2" ∷ []

perform_all_exclusive_example :
    (redis.value_of (perform_all redis rivals held).1 (lock_key "node") ≡ some "t-1")
    × ((acquire redis "node" (some 5000) "t-3" (perform_all redis rivals held).1).0 ≡ none)
unfolding get
perform_all_exclusive_example =
    perform_all_exclusive redis "node" "t-1" "t-3" 5000 rivals held refl (refl, (refl, tt))
      (omega arith) (omega arith)

-- a function that throws, and leaves the server as it is
abbrev failing : Renewal redis → Outcome ℕ × Renewal redis
failing r = (thrown "no connection", r)

with_lock_releases_example :
    ((with_lock redis "node" "t-2" absent failing []).0 ≡ thrown "no connection")
    × ((k : String)
        → redis.value_of (with_lock redis "node" "t-2" absent failing []).1 k ≡ (
            if lock_key "node" == k
            then if holds
                (redis.value_of (section_of redis "node" "t-2" absent failing []).1.server k)
                "t-2"
              then none
              else redis.value_of (section_of redis "node" "t-2" absent failing []).1.server k
            else redis.value_of (section_of redis "node" "t-2" absent failing []).1.server k))
unfolding normalize_options get
with_lock_releases_example = with_lock_releases redis ℕ "node" "t-2" absent failing [] (omega arith)
