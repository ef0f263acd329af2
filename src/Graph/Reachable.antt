-- ===== src/Graph/Reachable.antt =====
-- src/engine/graph-validation.ts: findUnreachableNodes. The `while` loop takes fuel, and stops at
-- the set it has when the fuel is gone.
pub mod Queue
pub mod Exact
use spane.Base.{
  ℕ, zero, suc, ◌+◌, String, Bool, true, false, not, Option, none, some, List, [], ◌∷◌, ◌++◌, map,
  has, add, length, select, ◌==◌, if◌then◌else◌,
}
use spane.Types.Workflow.{NodeDefinition, WorkflowDefinition, find_node}

-- `node.outputs` of the first node with this id, if there is one
unfoldable pub outputs_of : Option NodeDefinition → List String
outputs_of none = []
outputs_of (some n) = n.outputs

unfoldable pub search_from : List NodeDefinition → ℕ → List String → List String → List String
search_from nodes zero queue reachable = reachable
search_from nodes (suc fuel) [] reachable = reachable
search_from nodes (suc fuel) (id ∷ queue) reachable = elim (has reachable id) [
  | true ↦ search_from nodes fuel queue reachable
  | false ↦ search_from nodes fuel (queue ++ outputs_of (find_node nodes id)) (add reachable id)
]

-- the outputs of the nodes that are not reached yet
unfoldable pub outgoing : List NodeDefinition → List String → ℕ
outgoing [] reachable = 0
outgoing (n ∷ ns) reachable =
    let rest = outgoing ns reachable in if has reachable n.id then rest else length n.outputs + rest

-- the fuel: one round for the entry node, and one for each output of a node
abbrev pub rounds : List NodeDefinition → ℕ
rounds nodes = suc (outgoing nodes [])

unfoldable pub reachable_from : List NodeDefinition → String → List String
reachable_from nodes entry = search_from nodes (rounds nodes) (entry ∷ []) []

unfoldable pub find_unreachable_nodes : WorkflowDefinition → List String
find_unreachable_nodes workflow =
    if workflow.entry_node_id == ""
    then []
    else (let reachable = reachable_from workflow.nodes workflow.entry_node_id in
        map (λ n. n.id) (select (λ n. not (has reachable n.id)) workflow.nodes))
