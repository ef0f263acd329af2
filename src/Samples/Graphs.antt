-- ===== src/Samples/Graphs.antt =====
-- Samples of graph validation.
use spane.Base.{String, ◌≡◌, ◌↔◌, true, none, map, has}
use spane.Types.Workflow.{find_node}
use spane.Graph.Edges.{OnCycle, Reach}
use spane.Graph.Cycle.{detect_cycle}
use spane.Graph.Cycle.Detect.{nodes_by_id, detect_cycle_iff}
use spane.Graph.Reachable.{find_unreachable_nodes}
use spane.Graph.Reachable.Exact.{find_unreachable_nodes_iff}
use spane.Graph.Validate.{is_valid_workflow}
use spane.Graph.Validate.Exact.{WellFormed, is_valid_workflow_iff}
use spane.Samples.Workflows.{orders}

is_valid_workflow_iff_example : (is_valid_workflow orders ≡ true) ↔ WellFormed orders
is_valid_workflow_iff_example = is_valid_workflow_iff orders

detect_cycle_iff_example :
    (detect_cycle orders ≡ none) ↔ ((u : String) → ¬ OnCycle (nodes_by_id orders) u)
detect_cycle_iff_example = detect_cycle_iff orders

find_unreachable_nodes_iff_example : (has (find_unreachable_nodes orders) "alert" ≡ true) ↔ (
    (has (map (λ n. n.id) orders.nodes) "alert" ≡ true)
    × ¬ Reach (find_node orders.nodes) orders.entry_node_id "alert")
find_unreachable_nodes_iff_example = find_unreachable_nodes_iff orders "alert" (λ h. cc)
