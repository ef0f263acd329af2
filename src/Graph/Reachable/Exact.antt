-- ===== src/Graph/Reachable/Exact.antt =====
-- src/engine/graph-validation.ts: findUnreachableNodes against the walks from the entry node.
use mathlib.Core.Logic.{∥∥₁_elim}
use mathlib.Core.HLevel.{⊥_prop}
use spane.Base.{
  String, ◌≡◌, ◌≢◌, ◌↔◌, inl, inr, true, false, not, List, [], ◌∷◌, map, has, select, Bool-cases,
  arith, ◌==◌, eq_iff,
}
use spane.Types.Workflow.{NodeDefinition, WorkflowDefinition, find_node}
use spane.Graph.Edges.{Reach}
use spane.Graph.Reachable.{reachable_from, find_unreachable_nodes}
use spane.Graph.Reachable.Queue.{reachable_from_iff}

abbrev unreached : List String → List NodeDefinition → List String
unreached r ns = map (λ n. n.id) (select (λ n. not (has r n.id)) ns)

has-unreached :
    (r : List String) (ns : List NodeDefinition) (u : String)
    → (has (unreached r ns) u ≡ true) ↔ ((has (map (λ n. n.id) ns) u ≡ true) × (has r u ≡ false))
unfolding has
has-unreached r [] u = ground arith
has-unreached r (n ∷ ns) u = ground (arith, has-unreached r ns u, eq_iff n.id u)

-- With an entry node, findUnreachableNodes lists an id exactly if it is the id of a node of the
-- workflow and no walk along the outputs leads to it from the entry node.
pub find_unreachable_nodes_iff :
    (workflow : WorkflowDefinition) (u : String)
    → workflow.entry_node_id ≢ ""
    → (has (find_unreachable_nodes workflow) u ≡ true) ↔ (
        (has (map (λ n. n.id) workflow.nodes) u ≡ true)
        × ¬ Reach (find_node workflow.nodes) workflow.entry_node_id u)
unfolding find_unreachable_nodes
find_unreachable_nodes_iff workflow u named =
    let test : (workflow.entry_node_id == "") ≡ false =
      ground (arith, eq_iff workflow.entry_node_id "") in
    rw test (
      λ h.
          let (listed, unmarked) = listed_iff.0 h in
          (listed, λ r. cc (marked_iff.1 ∣ r ∣₁, unmarked)),
      λ (listed, unreached_id). listed_iff.1 (listed, unmarked_of unreached_id),
    )
  where
    nodes : List NodeDefinition
    nodes = workflow.nodes

    reached : List String
    reached = reachable_from nodes workflow.entry_node_id

    listed_iff :
        (has (unreached reached nodes) u ≡ true)
        ↔ ((has (map (λ n. n.id) nodes) u ≡ true) × (has reached u ≡ false))
    listed_iff = has-unreached reached nodes u

    marked_iff : (has reached u ≡ true) ↔ ∥ Reach (find_node nodes) workflow.entry_node_id u ∥₁
    marked_iff = reachable_from_iff nodes workflow.entry_node_id u

    unmarked_of : ¬ Reach (find_node nodes) workflow.entry_node_id u → has reached u ≡ false
    unmarked_of no_walk = elim (Bool-cases (has reached u)) [
      | inl m ↦ absurd (∥∥₁_elim (marked_iff.0 m) ⊥_prop no_walk)
      | inr m ↦ m
    ]
