-- ===== src/NodeUtils/Mapping.antt =====
-- src/engine/node-utils.ts: applyInputMapping and applyOutputMapping.
use spane.Base.{
  String, ◌≡◌, refl, false, Option, none, some, [], ◌∷◌, Bool-cases, Option-cases, inl, inr, arith,
  eq_iff, if◌then◌else◌,
}
use spane.Base.Dict.{Dict, get}
use spane.Base.Dict.Unique.{Unique}
use spane.Types.Json.{
  Value, Fields, undefined, obj, end, get_field, has_field, put_field, get_field-put_field,
}

-- the loop over the entries `targetKey: sourceKey` of the mapping
unfoldable pub map_fields : Fields → Dict String → Fields → Fields
map_fields source [] mapped = mapped
map_fields source ((target, key) ∷ rest) mapped =
    map_fields source rest
      (if has_field source key then put_field mapped target (get_field source key) else mapped)

-- no mapping, or data that is no object, is passed on
unfoldable pub apply_input_mapping : Value → Option (Dict String) → Value
unfolding map_fields
apply_input_mapping value none = value
apply_input_mapping (obj fs) (some mapping) = obj (map_fields fs mapping end)
apply_input_mapping value (some mapping) = value

unfoldable pub apply_output_mapping : Value → Option (Dict String) → Value
unfolding map_fields
apply_output_mapping value none = value
apply_output_mapping (obj fs) (some mapping) = obj (map_fields fs mapping end)
apply_output_mapping value (some mapping) = value

-- what the mapping puts under a target key
abbrev pub mapped_value : Fields → Option String → Value
mapped_value source none = undefined
mapped_value source (some key) = get_field source key

get_field_absent : (fs : Fields) (k : String) → has_field fs k ≡ false → get_field fs k ≡ undefined
unfolding get_field has_field
get_field_absent end k h = refl
get_field_absent (Fields.field j v fs) k h = ground (arith, get_field_absent fs k)

abbrev mapped_over : Fields → Option String → Value → Value
mapped_over source none old = old
mapped_over source (some key) old = if has_field source key then get_field source key else old

map_fields_lem :
    (source : Fields) (mapping : Dict String) (mapped : Fields) (t : String)
    → Unique mapping
    → get_field (map_fields source mapping mapped) t
      ≡ mapped_over source (get mapping t) (get_field mapped t)
unfolding map_fields get
map_fields_lem source [] mapped t u = refl
map_fields_lem source ((target, key) ∷ rest) mapped t u = elim (Bool-cases (has_field source key)) [
  | inl e ↦
      rw (e, map_fields)
        (ground (
          arith,
          e,
          map_fields_lem source rest (put_field mapped target (get_field source key)) t u.1,
          get_field-put_field mapped target (get_field source key) t,
          eq_iff target t,
          u.0,
          Option-cases (get rest t),
        ))
  | inr e ↦
      rw (e, map_fields)
        (ground (
          arith,
          e,
          map_fields_lem source rest mapped t u.1,
          eq_iff target t,
          u.0,
          Option-cases (get rest t),
        ))
]

map_fields_mapped :
    (source : Fields) (mapping : Dict String) (t : String)
    → Unique mapping
    → get_field (map_fields source mapping end) t ≡ mapped_value source (get mapping t)
unfolding get_field
map_fields_mapped source mapping t u = elim (Option-cases (get mapping t)) [
  | inl e ↦ ground (arith, map_fields_lem source mapping end t u, e)
  | inr (key, e) ↦
      ground (arith, map_fields_lem source mapping end t u, e, get_field_absent source key)
]

-- On an object, and with one source key for a target key, either mapping gives the object that holds
-- under each target key what the data holds under its source key, and nothing else.
pub apply_mapping_lem :
    (source : Fields) (mapping : Dict String)
    → Unique mapping
    → (mapped : Fields) × (apply_input_mapping (obj source) (some mapping) ≡ obj mapped)
      × (apply_output_mapping (obj source) (some mapping) ≡ obj mapped)
      × ((t : String) → get_field mapped t ≡ mapped_value source (get mapping t))
unfolding apply_input_mapping apply_output_mapping
apply_mapping_lem source mapping u =
    (map_fields source mapping end, refl, refl, λ t. map_fields_mapped source mapping t u)
