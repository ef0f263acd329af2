-- ===== src/Engine/Inputs.antt =====
-- src/engine/handlers/execution-handler.ts: buildNodeInputData.
use spane.Base.{
  String, ◌≡◌, refl, inl, inr, Option, none, some, List, [], ◌∷◌, has, Option-cases, arith, ◌==◌,
  ◌&&◌, eq_iff, if◌then◌else◌,
}
use spane.Base.Dict.{Dict, get}
use spane.Types.Json.{
  Value, Fields, undefined, obj, end, get_field, put_field, prop, is_defined, get_field-put_field,
}
use spane.Types.Execution.{ExecutionResult}

-- `parentResult?.success && parentResult.data !== undefined`, with the data
unfoldable pub passed_on : Option ExecutionResult → Option Value
passed_on none = none
passed_on (some r) = if r.success && is_defined r.output then some r.output else none

abbrev pub value_or : Value → Option Value → Value
value_or v none = v
value_or v (some w) = w

-- the loop over the parents
unfoldable pub merge_parents : Dict ExecutionResult → List String → Fields → Fields
unfolding passed_on
merge_parents results [] merged = merged
merge_parents results (p ∷ ps) merged =
    merge_parents results ps
      (elim (passed_on (get results p)) [ none ↦ merged | some v ↦ put_field merged p v ])

unfoldable pub build_node_input_data : Value → List String → Dict ExecutionResult → Value
unfolding passed_on merge_parents
build_node_input_data input_data [] results = input_data
build_node_input_data input_data (p ∷ []) results =
    if p == "" then input_data else value_or input_data (passed_on (get results p))
build_node_input_data input_data (p ∷ q ∷ ps) results = obj (merge_parents results (p ∷ q ∷ ps) end)

merge_parents_lem :
    (results : Dict ExecutionResult) (ps : List String) (merged : Fields) (k : String)
    → get_field (merge_parents results ps merged) k ≡ (
        if has ps k
        then value_or (get_field merged k) (passed_on (get results k))
        else get_field merged k)
unfolding merge_parents has
merge_parents_lem results [] merged k = refl
merge_parents_lem results (p ∷ ps) merged k = elim (Option-cases (passed_on (get results p))) [
  | inl e ↦
      rw (e, merge_parents) (ground (arith, merge_parents_lem results ps merged k, eq_iff p k, e))
  | inr (v, e) ↦
      rw (e, merge_parents)
        (ground (
          arith,
          merge_parents_lem results ps (put_field merged p v) k,
          get_field-put_field merged p v k,
          eq_iff p k,
          e,
        ))
]

-- A node with several parents gets an object that holds, under the id of each parent whose result
-- succeeded with a defined output, that output, and nothing under any other key.
pub build_node_input_data-merged :
    (input_data : Value) (p q : String) (ps : List String) (results : Dict ExecutionResult)
    (k : String)
    → prop (build_node_input_data input_data (p ∷ q ∷ ps) results) k
      ≡ (if has (p ∷ q ∷ ps) k then value_or undefined (passed_on (get results k)) else undefined)
unfolding build_node_input_data prop get_field
build_node_input_data-merged input_data p q ps results k =
    merge_parents_lem results (p ∷ q ∷ ps) end k
