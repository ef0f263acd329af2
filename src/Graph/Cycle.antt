-- ===== src/Graph/Cycle.antt =====
-- src/engine/graph-validation.ts: detectCycle, hasCycleFromNode and findCyclePath.
-- The two sets that the recursion mutates are passed along; the recursion takes fuel.
pub mod Search
pub mod Fuel
pub mod Detect
pub mod Stack
pub mod Trail
pub mod Reported
pub mod Severity
use Prim.Native.String
use spane.Base.{
  ℕ, zero, suc, String, Bool, true, false, Option, none, some, List, [], ◌∷◌, has, add, delete,
  length, ◌==◌, if◌then◌else◌,
}
use spane.Base.Dict.{Dict, get, put}
use spane.Types.Workflow.{NodeDefinition, WorkflowDefinition}
use spane.Graph.Edges.{Lookup}
use spane.Graph.Errors.{ValidationError, error, join}
use spane.Graph.Errors

-- `visited` and `recursionStack`
pub record Walk : Type 0 where
  pub visited : List String
  pub stack : List String

-- `true` and `false` with the sets as the call leaves them
pub data Verdict : Type 0 where
  cycle clear : Walk → Verdict
  out_of_fuel : Verdict

-- `new Map(nodes.map(n => [n.id, n]))`
unfoldable pub fill_map : Dict NodeDefinition → List NodeDefinition → Dict NodeDefinition
fill_map d [] = d
fill_map d (n ∷ ns) = fill_map (put d n.id n) ns

abbrev pub node_map : List NodeDefinition → Dict NodeDefinition
node_map nodes = fill_map [] nodes

abbrev pub and_then : Verdict → (Walk → Verdict) → Verdict
and_then (cycle w) k = cycle w
and_then (clear w) k = k w
and_then out_of_fuel k = out_of_fuel

-- the loop over `node.outputs`
unfoldable pub scan : (String → Walk → Verdict) → List String → Walk → Verdict
scan visit [] w = clear w
scan visit (c ∷ cs) w = and_then (visit c w) (scan visit cs)

abbrev pub enter : String → Walk → Walk
enter id w = record { visited = add w.visited id; stack = add w.stack id }

abbrev pub leave : String → Walk → Walk
leave id w = record w { stack = delete w.stack id }

-- what follows the two early returns
unfoldable pub expand : (String → Walk → Verdict) → String → Option NodeDefinition → Walk → Verdict
expand visit id none w = clear (leave id w)
expand visit id (some node) w = and_then (scan visit node.outputs w) (λ w'. clear (leave id w'))

-- the body of `hasCycleFromNode`, with the recursive call as `visit`
unfoldable pub visit_node : Lookup → (String → Walk → Verdict) → String → Walk → Verdict
visit_node look visit id w =
    if has w.stack id
    then cycle w
    else if has w.visited id
    then clear w
    else expand visit id (look id) (enter id w)

unfoldable pub has_cycle_from_node : Lookup → ℕ → String → Walk → Verdict
has_cycle_from_node look zero id w = out_of_fuel
has_cycle_from_node look (suc fuel) id w = visit_node look (has_cycle_from_node look fuel) id w

-- `array.find(test)`
unfoldable pub find_first : (String → Bool) → List String → Option String
find_first p [] = none
find_first p (x ∷ xs) = if p x then some x else find_first p xs

path_from : String → List String → Option String → List String
path_from start nodes none = start ∷ []
path_from start nodes (some first) = if first == "" then start ∷ [] else first ∷ nodes

unfoldable pub find_cycle_path : String → List String → List String
unfolding path_from find_first
find_cycle_path start stack = path_from start stack (find_first (has stack) stack)

abbrev pub fresh : Walk
fresh = record { visited = []; stack = [] }

abbrev pub cycle_error : List String → ValidationError
cycle_error path = record {
  type = Errors.cycle;
  message = String.◌++◌ "Workflow contains a cycle: " (join " → " path);
  node_ids = some path;
  severity = error;
}

-- what the loop of `detectCycle` does with one answer
unfoldable pub report : String → Verdict → Option ValidationError → Option ValidationError
report id (cycle w) rest = some (cycle_error (find_cycle_path id w.stack))
report id (clear w) rest = rest
report id out_of_fuel rest = rest

unfoldable pub detect_from : Lookup → ℕ → List NodeDefinition → Option ValidationError
unfolding report
detect_from look fuel [] = none
detect_from look fuel (n ∷ ns) =
    let rest = detect_from look fuel ns in
    report n.id (has_cycle_from_node look fuel n.id fresh) rest

unfoldable pub detect_cycle : WorkflowDefinition → Option ValidationError
detect_cycle workflow =
    detect_from (get (node_map workflow.nodes)) (suc (length workflow.nodes)) workflow.nodes
