-- ===== src/Samples/Utils.antt =====
-- Samples of the node utilities, the error codes and the inputs of nodes.
use Prim.Native.String.{String}
use spane.Base.{◌==◌, if◌then◌else◌, ◌≡◌, refl, Option, some, [], ◌∷◌}
use spane.Base.Dict.{Dict, get}
use spane.Types.Json.{Fields, undefined, str, obj, end, field, get_field, is_defined}
use spane.Types.Execution.{ExecutionResult}
use spane.NodeUtils.Aggregate.{aggregate_child_results, strip_prefix}
use spane.NodeUtils.Aggregate.Results.{
  short_keys, contribution, aggregate_child_results-short_keys, aggregate_child_results-full_keys,
  full_keys,
}
use spane.Samples.Workflows.{done_with}

abbrev user : Fields
user = field "name" (str "Ada") (field "mail" (str "ada@example.org") end)

abbrev renames : Dict String
renames = ("to", "mail") ∷ ("who", "name") ∷ []

abbrev children : Dict (Option ExecutionResult)
children = ("a", some (done_with (str "1"))) ∷ ("b", some (done_with (str "2"))) ∷ []

aggregate_child_results-short_keys_example :
    (fs : Fields) × (aggregate_child_results (short_keys "bull" "e1" children) "e1" ≡ obj fs)
    × ((j : String) → get_field fs j ≡ contribution (get children j))
unfolding get
aggregate_child_results-short_keys_example =
    aggregate_child_results-short_keys "bull" "e1" "a" "b" (some (done_with (str "1")))
      (some (done_with (str "2"))) [] (refl, (refl, (refl, (refl, tt)))) (refl, (refl, tt))
      ((refl, tt), ((refl, tt), tt)) (refl, (refl, tt))

aggregate_child_results-full_keys_example :
    (fs : Fields) × (aggregate_child_results (full_keys "spane" "nodes" children) "e1" ≡ obj fs)
    × ((j : String) → get_field fs j ≡ (if "nodes" == j then str "2" else undefined))
unfolding strip_prefix is_defined
aggregate_child_results-full_keys_example =
    aggregate_child_results-full_keys "spane" "nodes" "e1" "a" "b" (some (done_with (str "1")))
      (some (done_with (str "2"))) [] (refl, (refl, (refl, (refl, (refl, tt)))))
      (refl, (refl, (refl, (refl, (refl, tt))))) (λ h. cc) refl

abbrev parents : Dict ExecutionResult
parents = ("a", done_with (str "1")) ∷ ("b", done_with undefined) ∷ []
