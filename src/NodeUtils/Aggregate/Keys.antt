-- ===== src/NodeUtils/Aggregate/Keys.antt =====
-- src/engine/node-utils.ts: the node id that aggregateChildResults reads from a job key.
use Prim.Native.Char.{Char, code}
use Prim.Native.String.{String, ◌++◌}
use text.Mathlib.TextLemmas.{
  nil-append, cons-append, append_assoc, append-ne-nil_of_right_ne-nil, cons-ne-nil,
}
use spane.Base.{
  ◌≡◌, ◌≢◌, refl, ◌∙◌, ap, false, some, eqb, Bool-cases, inl, inr, arith, ◌==◌, eq_iff,
}
use spane.NodeUtils.Aggregate.{before_colon, after_colon, job_id_of, strip_prefix, node_id_of}

-- the text holds no colon
abbrev pub NoColon : String → Type 0
NoColon String.[] = Unit
NoColon (String.◌∷◌ c s) = (eqb (code c) b':' ≡ false) × NoColon s

colon-append : (rest : String) → "" ++ (":" ++ rest) ≡ String.◌∷◌ ":" rest
colon-append rest =
    nil-append (":" ++ rest) ∙ cons-append ":" "" rest ∙ ap (String.◌∷◌ ":") (nil-append rest)

after_colon-append : (q rest : String) → NoColon q → after_colon (q ++ (":" ++ rest)) ≡ some rest
unfolding after_colon
after_colon-append String.[] rest h = rw colon-append refl
after_colon-append (String.◌∷◌ c q) rest h =
    rw (cons-append c q (":" ++ rest), after_colon, h.0) (after_colon-append q rest h.1)

before_colon_all : (s : String) → NoColon s → before_colon s ≡ s
unfolding before_colon
before_colon_all String.[] h = refl
before_colon_all (String.◌∷◌ c s) h =
    rw (before_colon, h.0) (ap (String.◌∷◌ c) (before_colon_all s h.1))

before_colon-append : (q rest : String) → NoColon q → before_colon (q ++ (":" ++ rest)) ≡ q
unfolding before_colon
before_colon-append String.[] rest h = rw colon-append refl
before_colon-append (String.◌∷◌ c q) rest h =
    rw (cons-append c q (":" ++ rest), before_colon, h.0)
      (ap (String.◌∷◌ c) (before_colon-append q rest h.1))

strip_prefix-append : (p s : String) → strip_prefix p (p ++ s) ≡ some s
unfolding strip_prefix
strip_prefix-append String.[] s = ap some (nil-append s)
strip_prefix-append (String.◌∷◌ c p) s =
    rw (cons-append c p s, strip_prefix) (ground (arith, strip_prefix-append p s))

NoColon-append : (s t : String) → NoColon s → NoColon t → NoColon (s ++ t)
NoColon-append String.[] t h k = rw nil-append k
NoColon-append (String.◌∷◌ c s) t h k = rw cons-append (h.0, NoColon-append s t h.1 k)

-- Behind a queue name without a colon, the job id is the text up to the next colon.
job_id_of-key :
    (queue rest : String)
    → NoColon queue
    → (before_colon rest == "") ≡ false
    → job_id_of (queue ++ (":" ++ rest)) ≡ before_colon rest
unfolding job_id_of
job_id_of-key queue rest hq named = rw (after_colon-append queue rest hq) (rw named refl)

not_empty : (p : String) (c : Char) (s : String) → (((p ++ String.◌∷◌ c s)) == "") ≡ false
not_empty p c s = elim (Bool-cases ((p ++ String.◌∷◌ c s) == "")) [
  | inl e ↦
      absurd
        (append-ne-nil_of_right_ne-nil p (cons-ne-nil c s) ((eq_iff (p ++ String.◌∷◌ c s) "").0 e))
  | inr n ↦ n
]

-- the key format that the source's comment states
abbrev pub short_key : String → String → String → String
short_key queue execution_id node_id = queue ++ (":" ++ ((execution_id ++ "-") ++ node_id))

abbrev pub prefix : String → String
prefix execution_id = execution_id ++ "-"

-- From a key `queue:executionId-nodeId` the node id is read back, where none of the three holds a
-- colon.
pub node_id_of-short_key :
    (queue execution_id node_id : String)
    → NoColon queue
    → NoColon execution_id
    → NoColon node_id
    → node_id_of execution_id (short_key queue execution_id node_id) ≡ node_id
unfolding node_id_of
node_id_of-short_key queue execution_id node_id hq he hn = rw read (rw strip_prefix-append refl)
  where
    job : String
    job = (execution_id ++ "-") ++ node_id

    clean : NoColon job
    clean =
        NoColon-append (execution_id ++ "-") node_id (NoColon-append execution_id "-" he (refl, tt))
          hn

    named : (job == "") ≡ false
    named =
        rw (append_assoc execution_id "-" node_id, cons-append "-" "" node_id)
          (not_empty execution_id "-" ("" ++ node_id))

    read : job_id_of (queue ++ (":" ++ job)) ≡ job
    read =
        job_id_of-key queue job hq (rw (before_colon_all job clean) named)
        ∙ before_colon_all job clean

-- the key format of a queue with a prefix: `prefix:queue:jobId`
abbrev pub full_key : String → String → String → String
full_key queue_prefix queue job_id = queue_prefix ++ (":" ++ (queue ++ (":" ++ job_id)))

-- From a key `prefix:queue:jobId` the queue is read in place of the job id, whatever the job is.
pub job_id_of-full_key :
    (queue_prefix queue job_id : String)
    → NoColon queue_prefix
    → NoColon queue
    → queue ≢ ""
    → job_id_of (full_key queue_prefix queue job_id) ≡ queue
job_id_of-full_key queue_prefix queue job_id hp hq named =
    job_id_of-key queue_prefix (queue ++ (":" ++ job_id)) hp
      (rw (before_colon-append queue job_id hq) (ground (arith, eq_iff queue "")))
    ∙ before_colon-append queue job_id hq
