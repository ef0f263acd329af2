-- ===== src/NodeUtils/Aggregate.antt =====
-- src/engine/node-utils.ts: aggregateChildResults.
pub mod Keys
pub mod Results
use Prim.Native.Char.{Char, code}
use Prim.Native.String.{String, ◌++◌}
use Prim.Native.String
use text.Mathlib.TextLemmas.{nil-append, cons-append}
use spane.Base.{
  ◌≡◌, refl, ◌∙◌, ap, Bool, true, false, Option, none, some, List, [], ◌∷◌, eqb, ◌&&◌, ◌||◌,
  Bool-cases, Option-cases, inl, inr, ⊎_elim, arith, ◌==◌, eq_iff, if◌then◌else◌,
}
use spane.Base.Dict.{Dict, get}
use spane.Base.Dict.Unique.{Unique}
use spane.Types.Json.{
  Value, Fields, undefined, obj, end, get_field, has_field, put_field, is_defined,
  get_field-put_field, has_field-put_field,
}
use spane.Types.Execution.{ExecutionResult}

abbrev is_colon : Char → Bool
is_colon c = eqb (code c) b':'

-- the text before the first colon, all of it if there is none
unfoldable pub before_colon : String → String
before_colon String.[] = String.[]
before_colon (String.◌∷◌ c s) =
    let rest = before_colon s in if is_colon c then String.[] else String.◌∷◌ c rest

-- the text behind the first colon
unfoldable pub after_colon : String → Option String
after_colon String.[] = none
after_colon (String.◌∷◌ c s) = if is_colon c then some s else after_colon s

-- `key.split(':')[1] || key`
abbrev pub or_key : String → Option String → String
or_key key none = key
or_key key (some rest) = if before_colon rest == "" then key else before_colon rest

unfoldable pub job_id_of : String → String
unfolding before_colon after_colon
job_id_of key = or_key key (after_colon key)

-- `text.slice(prefix.length)` if `text.startsWith(prefix)`
unfoldable pub strip_prefix : String → String → Option String
strip_prefix String.[] s = some s
strip_prefix (String.◌∷◌ c p) String.[] = none
strip_prefix (String.◌∷◌ c p) (String.◌∷◌ d s) =
    if eqb (code c) (code d) then strip_prefix p s else none

abbrev pub stripped_or : String → Option String → String
stripped_or job_id none = job_id
stripped_or job_id (some node_id) = node_id

unfoldable pub node_id_of : String → String → String
unfolding job_id_of strip_prefix
node_id_of execution_id key =
    stripped_or (job_id_of key) (strip_prefix (execution_id ++ "-") (job_id_of key))

-- the body of the loop over the children
unfoldable pub aggregate_one : String → String → Option ExecutionResult → Fields → Fields
unfolding node_id_of
aggregate_one execution_id key none fs = fs
aggregate_one execution_id key (some r) fs =
    if r.success && is_defined r.output
    then put_field fs (node_id_of execution_id key) r.output
    else fs

unfoldable pub aggregate_from : String → Dict (Option ExecutionResult) → Fields → Fields
aggregate_from execution_id [] fs = fs
aggregate_from execution_id ((key, r) ∷ rest) fs =
    aggregate_from execution_id rest (aggregate_one execution_id key r fs)

abbrev pub output_of : Option ExecutionResult → Value
output_of none = undefined
output_of (some r) = r.output

-- `children` are the entries of `childrenValues`; `none` is a value `undefined`
unfoldable pub aggregate_child_results : Dict (Option ExecutionResult) → String → Value
unfolding aggregate_from aggregate_one
aggregate_child_results [] execution_id = obj end
aggregate_child_results ((key, r) ∷ []) execution_id = output_of r
aggregate_child_results (a ∷ b ∷ rest) execution_id =
    obj (aggregate_from execution_id (a ∷ b ∷ rest) end)
