-- ===== src/Samples/Queue.antt =====
-- A node queue that meets the laws: it keeps its jobs by their ids, and its jobs have no children.
use mathlib.Core.Option.{some-injective}
use spane.Base.{
  String, ◌≡◌, ◌≢◌, ◌⊎◌, refl, sym, ◌∙◌, ap, inl, inr, Bool, true, false, Bool-cases, Option, none,
  some, Option-cases, List, [], ◌∷◌, ◌==◌, if◌then◌else◌, arith, eq_iff, eq_refl,
}
use spane.Base.Dict.{Dict, get, put, remove, get-put, get-remove}
use spane.Engine.World.{NodeJobData}
use spane.Control.Queue.{
  NodeQueue, QueuedJob, JobOptions, JobState, All, listed, includes, queued, or_added, promoted,
  promoted_view, or_same,
}

-- a job is kept under its own id
abbrev with_id : String → Option QueuedJob → Option QueuedJob
with_id id none = none
with_id id (some j) = some (record j { id = id })

unfoldable pub find_job : Dict QueuedJob → String → Option QueuedJob
unfolding get
find_job q id = with_id id (get q id)

abbrev push_state : List JobState → Option QueuedJob → List QueuedJob → List QueuedJob
push_state states none js = js
push_state states (some j) js = if includes states j.state then j ∷ js else js

-- the jobs in the states, by the ids of the entries `d`
unfoldable pub jobs_in : List JobState → Dict QueuedJob → Dict QueuedJob → List QueuedJob
unfolding find_job
jobs_in states q [] = []
jobs_in states q ((id, j) ∷ d) = push_state states (find_job q id) (jobs_in states q d)

find_job-id :
    (q : Dict QueuedJob) (id : String) (j : QueuedJob) → find_job q id ≡ some j → j.id ≡ id
unfolding find_job
find_job-id q id j h = elim (Option-cases (get q id)) [
  | inl e ↦ let n : find_job q id ≡ none = rw e refl in cc
  | inr (i, e) ↦
      let s : find_job q id ≡ some (record i { id = id }) = rw e refl in
      ap (λ (x : QueuedJob). x.id) (sym (some-injective _ _ (sym s ∙ h)))
]

pub jobs_in_sound :
    (states : List JobState) (q d : Dict QueuedJob)
    → All (λ j. (find_job q j.id ≡ some j) × (includes states j.state ≡ true)) (jobs_in states q d)
unfolding jobs_in
jobs_in_sound states q [] = tt
jobs_in_sound states q ((id, j) ∷ d) = elim (Option-cases (find_job q id)) [
  | inl e ↦ rw (e, jobs_in) (jobs_in_sound states q d)
  | inr (i, e) ↦ elim (Bool-cases (includes states i.state)) [
    | inl h ↦
        rw (e, jobs_in)
          (rw h ((ap (find_job q) (find_job-id q id i e) ∙ e, h), jobs_in_sound states q d))
    | inr h ↦ rw (e, jobs_in) (rw h (jobs_in_sound states q d))
  ]
]

pub listed_in :
    (states : List JobState) (q d : Dict QueuedJob) (id : String) (j : QueuedJob)
    → find_job q id ≡ some j
    → includes states j.state ≡ true
    → get d id ≢ none
    → listed id (jobs_in states q d) ≡ true
unfolding jobs_in get
listed_in states q [] id j h k n = absurd (n refl)
listed_in states q ((i, x) ∷ d) id j h k n = elim (Bool-cases (i == id)) [
  | inl same ↦
      let e = ap (find_job q) ((eq_iff i id).0 same) ∙ h in
      let own = (eq_iff j.id id).1 (find_job-id q id j h) in rw (e, jobs_in) (rw k (rw own refl))
  | inr other ↦
      let rest = listed_in states q d id j h k (λ e. n (rw other e)) in
      elim (Option-cases (find_job q i)) [
        | inl e ↦ rw (e, jobs_in) rest
        | inr (y, e) ↦ elim (Bool-cases (includes states y.state)) [
          | inl g ↦ rw (e, jobs_in) (rw g (ground arith))
          | inr g ↦ rw (e, jobs_in) (rw g rest)
        ]
      ]
]

pub found_entry :
    (q : Dict QueuedJob) (id : String) (j : QueuedJob) → find_job q id ≡ some j → get q id ≢ none
unfolding find_job
found_entry q id j h e = let n : find_job q id ≡ none = rw e refl in cc

abbrev add_job : String → NodeJobData → JobOptions → Dict QueuedJob → Dict QueuedJob
add_job name payload opts q = elim (get q opts.job_id) [
  | some j ↦ q
  | none ↦ put q opts.job_id (queued name payload opts)
]

pub added_lem :
    (name : String) (payload : NodeJobData) (opts : JobOptions) (q : Dict QueuedJob) (k : String)
    → opts.parent ≡ none
    → find_job (add_job name payload opts q) k ≡ (
        if opts.job_id == k
        then or_added (find_job q k) (queued name payload opts)
        else find_job q k)
unfolding find_job
added_lem name payload opts q k h = elim (Option-cases (get q opts.job_id)) [
  | inl e ↦
      rw (e, add_job)
        (rw (get-put q opts.job_id (queued name payload opts) k)
          (elim (Bool-cases (opts.job_id == k)) [
            | inl same ↦
                let here = (eq_iff opts.job_id k).0 same in
                let free = ap (get q) (sym here) ∙ e in
                rw (same, free)
                  (ap (λ i. some (record (queued name payload opts) { id = i })) (sym here))
            | inr other ↦ rw other refl
          ]))
  | inr (j, e) ↦
      rw (e, add_job)
        (elim (Bool-cases (opts.job_id == k)) [
          | inl same ↦
              let taken = ap (get q) (sym ((eq_iff opts.job_id k).0 same)) ∙ e in
              rw (same, taken) refl
          | inr other ↦ rw other refl
        ])
]

pub removed_lem :
    (id : String) (q : Dict QueuedJob) (k : String)
    → find_job (remove q id) k ≡ (if id == k then none else find_job q k)
unfolding find_job
removed_lem id q k =
    rw get-remove (elim (Bool-cases (id == k)) [ inl e ↦ rw e refl | inr e ↦ rw e refl ])

-- a job that is not delayed cannot be promoted
abbrev is_delayed : QueuedJob → Bool
is_delayed j = elim j.state [ JobState.delayed ↦ true | _ ↦ false ]

abbrev promote_job : String → Dict QueuedJob → Option (Dict QueuedJob)
promote_job id q = elim (get q id) [
  | none ↦ none
  | some j ↦ if is_delayed j then some (put q id (promoted j)) else none
]

promoted-is_delayed :
    (j : QueuedJob) (k : String)
    → is_delayed j ≡ false
    → promoted (record j { id = k }) ≡ record j { id = k }
promoted-is_delayed j k h = ground arith

promoted-record :
    (j : QueuedJob) (k : String) → record (promoted j) { id = k } ≡ promoted (record j { id = k })
promoted-record j k = ground arith

pub promoted_job_lem :
    (id : String) (q : Dict QueuedJob) (k : String)
    → find_job (or_same q (promote_job id q)) k
      ≡ (if id == k then promoted_view (find_job q k) else find_job q k)
unfolding find_job
promoted_job_lem id q k = elim (Option-cases (get q id)) [
  | inl e ↦
      rw (e, promote_job)
        (elim (Bool-cases (id == k)) [
          | inl same ↦
              let gone = ap (get q) (sym ((eq_iff id k).0 same)) ∙ e in rw (same, gone) refl
          | inr other ↦ rw other refl
        ])
  | inr (j, e) ↦ elim (Bool-cases (is_delayed j)) [
    | inl delayed ↦
        rw (e, promote_job)
          (rw delayed (
            rw (get-put q id (promoted j) k) (elim (Bool-cases (id == k)) [
              | inl same ↦
                  let there = ap (get q) (sym ((eq_iff id k).0 same)) ∙ e in
                  rw (same, there) (ap some (promoted-record j k))
              | inr other ↦ rw other refl
            ])))
    | inr ready ↦
        rw (e, promote_job)
          (rw ready (elim (Bool-cases (id == k)) [
            | inl same ↦
                let there = ap (get q) (sym ((eq_iff id k).0 same)) ∙ e in
                rw (same, there) (ap some (sym (promoted-is_delayed j k ready)))
            | inr other ↦ rw other refl
          ]))
  ]
]

pub removed_same : (id : String) (q : Dict QueuedJob) → find_job (remove q id) id ≡ none
removed_same id q = removed_lem id q id ∙ (rw eq_refl refl)

pub removed_less :
    (id : String) (q : Dict QueuedJob) (k : String)
    → (find_job (remove q id) k ≡ find_job q k) ⊎ (find_job (remove q id) k ≡ none)
removed_less id q k =
    rw removed_lem
      (elim (Bool-cases (id == k)) [ inl e ↦ rw e (inr refl) | inr e ↦ rw e (inl refl) ])

pub removed_apart :
    (id : String) (q : Dict QueuedJob) (k : String)
    → id ≢ k
    → find_job (remove q id) k ≡ find_job q k
removed_apart id q k n = removed_lem id q k ∙ (ground (arith, eq_iff id k))

abbrev pub node_queue : NodeQueue
node_queue = record {
  Queue = Dict QueuedJob;
  job_of = find_job;
  is_leaf = λ q id. true;
  get_jobs = λ states q. jobs_in states q q;
  remove = λ id q. remove q id;
  add = add_job;
  promote = promote_job;
  get_jobs_sound = λ states q. jobs_in_sound states q q;
  get_jobs_complete = λ states q id j h k. listed_in states q q id j h k (found_entry q id j h);
  removed_self = removed_same;
  removed_fewer = removed_less;
  removed_other = λ id q k h n. removed_apart id q k n;
  removed_leaf = λ id q k h. refl;
  added = added_lem;
  added_leaf = λ name payload opts q k h l. refl;
  promoted_lem = promoted_job_lem;
}
