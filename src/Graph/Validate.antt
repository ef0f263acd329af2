-- ===== src/Graph/Validate.antt =====
-- src/engine/graph-validation.ts: validateEntryNode, validateWorkflow and isValidWorkflow.
pub mod Exact
use Prim.Native.String
use spane.Base.{
  String, Bool, true, false, not, Option, none, some, List, [], ◌∷◌, ◌++◌, map, has, length, select,
  eqb, ◌==◌, ◌&&◌, if◌then◌else◌,
}
use spane.Types.Workflow.{NodeDefinition, WorkflowDefinition}
use spane.Graph.Errors.{
  ValidationError, ValidationResult, Severity, error, warning, join, no_entry_node, duplicate_id,
  missing_ref, unreachable,
}
use spane.Graph.Cycle.{detect_cycle}
use spane.Graph.Reachable.{find_unreachable_nodes}
use spane.Graph.References.{find_missing_references, find_duplicate_node_ids}

abbrev pub is_none {ℓ} : {A : Type ℓ} → Option A → Bool
is_none none = true
is_none (some a) = false

-- `nodes.some(n => n.id === id)`
unfoldable pub some_node : List NodeDefinition → String → Bool
some_node [] id = false
some_node (n ∷ ns) id = if n.id == id then true else some_node ns id

unfoldable pub validate_entry_node : WorkflowDefinition → Option ValidationError
validate_entry_node workflow =
    if workflow.entry_node_id == "" && is_none workflow.triggers
    then some (record {
      type = no_entry_node;
      message = "Workflow must have an entryNodeId specified";
      node_ids = none;
      severity = error;
    })
    else if not (workflow.entry_node_id == "")
        && not (some_node workflow.nodes workflow.entry_node_id)
    then some (record {
      type = no_entry_node;
      message =
          String.◌++◌ "Entry node '"
            (String.◌++◌ workflow.entry_node_id "' not found in workflow nodes");
      node_ids = some (workflow.entry_node_id ∷ []);
      severity = error;
    })
    else none

-- `if (error) errors.push(error)`
abbrev pub push_error : Option ValidationError → List ValidationError
push_error none = []
push_error (some e) = e ∷ []

abbrev pub duplicate_error : List String → ValidationError
duplicate_error found = record {
  type = duplicate_id;
  message = String.◌++◌ "Duplicate node IDs found: " (join ", " found);
  node_ids = some found;
  severity = error;
}

abbrev pub missing_error : List String → ValidationError
missing_error found = record {
  type = missing_ref;
  message = String.◌++◌ "References to non-existent nodes: " (join ", " found);
  node_ids = some found;
  severity = error;
}

abbrev pub unreachable_warning : List String → ValidationError
unreachable_warning found = record {
  type = unreachable;
  message = String.◌++◌ "Nodes not reachable from entry node: " (join ", " found);
  node_ids = some found;
  severity = warning;
}

-- `if (found.length > 0) errors.push(...)`
abbrev pub push_found : (List String → ValidationError) → List String → List ValidationError
push_found make [] = []
push_found make (x ∷ xs) = make (x ∷ xs) ∷ []

unfoldable pub collected_errors : WorkflowDefinition → List ValidationError
collected_errors workflow =
    push_error (validate_entry_node workflow)
    ++ (push_error (detect_cycle workflow)
        ++ (push_found duplicate_error (find_duplicate_node_ids workflow)
            ++ (push_found missing_error (find_missing_references workflow)
                ++ push_found unreachable_warning (find_unreachable_nodes workflow))))

abbrev pub is_error : ValidationError → Bool
is_error e = elim e.severity [ Severity.error ↦ true | Severity.warning ↦ false ]

unfoldable pub validate_workflow : WorkflowDefinition → ValidationResult
validate_workflow workflow =
    let errors = collected_errors workflow in
    record { valid = eqb (length (select is_error errors)) 0; errors = errors }

unfoldable pub is_valid_workflow : WorkflowDefinition → Bool
is_valid_workflow workflow = (validate_workflow workflow).valid
