-- ===== src/NodeUtils/Aggregate/Results.antt =====
-- src/engine/node-utils.ts: what aggregateChildResults collects, for two formats of job keys.
use Prim.Native.String.{String, ◌++◌}
use spane.Base.{
  ◌≡◌, ◌≢◌, refl, ◌∙◌, Bool, true, false, Option, none, some, [], ◌∷◌, ◌&&◌, Bool-cases, inl, inr,
  arith, ◌==◌, eq_iff, if◌then◌else◌,
}
use spane.Base.Dict.{Dict, get}
use spane.Base.Dict.Unique.{Unique}
use spane.Types.Json.{
  Value, Fields, undefined, obj, end, get_field, is_defined, get_field-put_field,
}
use spane.Types.Execution.{ExecutionResult}
use spane.NodeUtils.Aggregate.{
  node_id_of, strip_prefix, aggregate_one, aggregate_from, aggregate_child_results,
}
use spane.NodeUtils.Aggregate.Keys.{
  NoColon, short_key, node_id_of-short_key, full_key, job_id_of-full_key,
}

-- what a child contributes: the data of a success, if it is there
abbrev pub contribution : Option (Option ExecutionResult) → Value
contribution none = undefined
contribution (some none) = undefined
contribution (some (some r)) = if r.success then r.output else undefined

-- the data of a success, if there are any; else what was there
abbrev pub over : Option (Option ExecutionResult) → Value → Value
over none old = old
over (some none) old = old
over (some (some r)) old = if r.success && is_defined r.output then r.output else old

module _ (queue execution_id : String) where
  abbrev pub short_keys : Dict (Option ExecutionResult) → Dict (Option ExecutionResult)
  short_keys [] = []
  short_keys ((n, r) ∷ rest) = (short_key queue execution_id n, r) ∷ short_keys rest

  abbrev pub CleanIds : Dict (Option ExecutionResult) → Type 0
  CleanIds [] = Unit
  CleanIds ((n, r) ∷ rest) = NoColon n × CleanIds rest

  module _ (hq : NoColon queue) (he : NoColon execution_id) where
    get_field-aggregate_one :
        (n : String) (r : Option ExecutionResult) (fs : Fields) (j : String)
        → NoColon n
        → get_field (aggregate_one execution_id (short_key queue execution_id n) r fs) j
          ≡ (if n == j then over (some r) (get_field fs j) else get_field fs j)
    unfolding aggregate_one
    get_field-aggregate_one n none fs j h = ground arith
    get_field-aggregate_one n (some r) fs j h =
        rw (node_id_of-short_key queue execution_id n hq he h)
          (elim (Bool-cases (r.success && is_defined r.output)) [
            | inl e ↦ rw e (get_field-put_field fs n r.output j)
            | inr e ↦ rw e (ground arith)
          ])

    get_field-aggregate_from :
        (children : Dict (Option ExecutionResult)) (fs : Fields) (j : String)
        → Unique children
        → CleanIds children
        → get_field (aggregate_from execution_id (short_keys children) fs) j
          ≡ over (get children j) (get_field fs j)
    unfolding aggregate_from get
    get_field-aggregate_from [] fs j u h = refl
    get_field-aggregate_from ((n, r) ∷ rest) fs j u h =
        rw
          (get_field-aggregate_from rest
            (aggregate_one execution_id (short_key queue execution_id n) r fs) j u.1 h.1)
          (rw (get_field-aggregate_one n r fs j h.0) (elim (Bool-cases (n == j)) [
            | inl e ↦ rw e (ground (arith, eq_iff n j, u.0))
            | inr e ↦ rw e refl
          ]))

over_fresh : (o : Option (Option ExecutionResult)) → over o undefined ≡ contribution o
unfolding is_defined
over_fresh none = refl
over_fresh (some none) = refl
over_fresh (some (some r)) = go r.success r.output
  where
    go :
        (b : Bool) (v : Value)
        → (if b && is_defined v then v else undefined) ≡ (if b then v else undefined)
    go true undefined = refl
    go true _ = refl
    go false v = refl

-- Of two children or more with different node ids, where no part of a key holds a colon, whose keys are
-- `queue:executionId-nodeId`, the aggregate holds under each node id the data of that child if it
-- succeeded, and nothing else.
pub aggregate_child_results-short_keys :
    (queue execution_id n m : String) (r q : Option ExecutionResult)
    (rest : Dict (Option ExecutionResult))
    → NoColon queue
    → NoColon execution_id
    → CleanIds queue execution_id ((n, r) ∷ (m, q) ∷ rest)
    → Unique ((n, r) ∷ (m, q) ∷ rest)
    → (fs : Fields) × (aggregate_child_results
          (short_keys queue execution_id ((n, r) ∷ (m, q) ∷ rest))
          execution_id
        ≡ obj fs)
      × ((j : String) → get_field fs j ≡ contribution (get ((n, r) ∷ (m, q) ∷ rest) j))
unfolding aggregate_child_results get_field
aggregate_child_results-short_keys queue execution_id n m r q rest hq he clean unique = (
  aggregate_from execution_id (short_keys queue execution_id ((n, r) ∷ (m, q) ∷ rest)) end,
  refl,
  λ j.
      get_field-aggregate_from queue execution_id hq he ((n, r) ∷ (m, q) ∷ rest) end j unique clean
      ∙ over_fresh (get ((n, r) ∷ (m, q) ∷ rest) j),
)

abbrev pub full_keys :
    String → String → Dict (Option ExecutionResult) → Dict (Option ExecutionResult)
full_keys queue_prefix queue [] = []
full_keys queue_prefix queue ((job_id, r) ∷ rest) =
    (full_key queue_prefix queue job_id, r) ∷ full_keys queue_prefix queue rest

-- the data of the last child that succeeded with data
abbrev pub last_data : Dict (Option ExecutionResult) → Value → Value
last_data [] old = old
last_data ((job_id, r) ∷ rest) old = last_data rest (over (some r) old)

module _ (queue_prefix queue execution_id : String) (hp : NoColon queue_prefix) (hq : NoColon queue)
    (named : queue ≢ "") (other : strip_prefix (execution_id ++ "-") queue ≡ none) where
  node_id_of-full_key :
      (job_id : String) → node_id_of execution_id (full_key queue_prefix queue job_id) ≡ queue
  unfolding node_id_of
  node_id_of-full_key job_id =
      rw (job_id_of-full_key queue_prefix queue job_id hp hq named) (rw other refl)

  get_field-aggregate_full :
      (job_id : String) (r : Option ExecutionResult) (fs : Fields) (j : String)
      → get_field (aggregate_one execution_id (full_key queue_prefix queue job_id) r fs) j
        ≡ (if queue == j then over (some r) (get_field fs j) else get_field fs j)
  unfolding aggregate_one
  get_field-aggregate_full job_id none fs j = ground arith
  get_field-aggregate_full job_id (some r) fs j =
      rw (node_id_of-full_key job_id) (elim (Bool-cases (r.success && is_defined r.output)) [
        | inl e ↦ rw e (get_field-put_field fs queue r.output j)
        | inr e ↦ rw e (ground arith)
      ])

  get_field-full_keys :
      (children : Dict (Option ExecutionResult)) (fs : Fields) (j : String)
      → get_field (aggregate_from execution_id (full_keys queue_prefix queue children) fs) j
        ≡ (if queue == j then last_data children (get_field fs j) else get_field fs j)
  unfolding aggregate_from
  get_field-full_keys [] fs j = ground arith
  get_field-full_keys ((job_id, r) ∷ rest) fs j =
      rw
        (get_field-full_keys rest
          (aggregate_one execution_id (full_key queue_prefix queue job_id) r fs) j)
        (rw (get_field-aggregate_full job_id r fs j)
          (elim (Bool-cases (queue == j)) [ inl e ↦ rw e refl | inr e ↦ rw e refl ]))

-- Of two children or more whose keys are `prefix:queue:jobId`, with no colon in the prefix or the queue
-- and with a queue that is not empty and does not begin with `executionId-`, the aggregate has one field
-- at most, named like the queue: it holds the data of the last child in order that succeeded with data,
-- and the data of all others are lost.
pub aggregate_child_results-full_keys :
    (queue_prefix queue execution_id n m : String) (r q : Option ExecutionResult)
    (rest : Dict (Option ExecutionResult))
    → NoColon queue_prefix
    → NoColon queue
    → queue ≢ ""
    → strip_prefix (execution_id ++ "-") queue ≡ none
    → (fs : Fields) × (aggregate_child_results
          (full_keys queue_prefix queue ((n, r) ∷ (m, q) ∷ rest))
          execution_id
        ≡ obj fs)
      × ((j : String)
          → get_field fs j
            ≡ (if queue == j then last_data ((n, r) ∷ (m, q) ∷ rest) undefined else undefined))
unfolding aggregate_child_results get_field
aggregate_child_results-full_keys queue_prefix queue execution_id n m r q rest hp hq named other = (
  aggregate_from execution_id (full_keys queue_prefix queue ((n, r) ∷ (m, q) ∷ rest)) end,
  refl,
  λ j.
      get_field-full_keys queue_prefix queue execution_id hp hq named other ((n, r) ∷ (m, q) ∷ rest)
        end j,
)
