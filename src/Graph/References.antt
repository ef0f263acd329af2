-- ===== src/Graph/References.antt =====
-- src/engine/graph-validation.ts: findMissingReferences and findDuplicateNodeIds.
pub mod Exact
use spane.Base.{String, Bool, true, false, List, [], ◌∷◌, map, has, add, if◌then◌else◌}
use spane.Types.Workflow.{NodeDefinition, WorkflowDefinition}

-- one inner loop: the references that are no node id are added to `missing_refs`
unfoldable pub collect : List String → List String → List String → List String
collect node_ids [] missing_refs = missing_refs
collect node_ids (id ∷ rest) missing_refs =
    collect node_ids rest (if has node_ids id then missing_refs else add missing_refs id)

unfoldable pub collect_nodes : List String → List NodeDefinition → List String → List String
collect_nodes node_ids [] missing_refs = missing_refs
collect_nodes node_ids (n ∷ ns) missing_refs =
    collect_nodes node_ids ns (collect node_ids n.outputs (collect node_ids n.inputs missing_refs))

-- A `Set` of ids is only asked whether it holds an id, so the list of all ids stands for it.
unfoldable pub find_missing_references : WorkflowDefinition → List String
find_missing_references workflow = collect_nodes (map (λ n. n.id) workflow.nodes) workflow.nodes []

unfoldable pub duplicates_from : List NodeDefinition → List String → List String → List String
duplicates_from [] seen duplicates = duplicates
duplicates_from (n ∷ ns) seen duplicates =
    let again = duplicates_from ns seen (add duplicates n.id) in
    let first = duplicates_from ns (add seen n.id) duplicates in
    if has seen n.id then again else first

unfoldable pub find_duplicate_node_ids : WorkflowDefinition → List String
find_duplicate_node_ids workflow = duplicates_from workflow.nodes [] []
