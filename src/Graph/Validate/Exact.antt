-- ===== src/Graph/Validate/Exact.antt =====
-- src/engine/graph-validation.ts: validateWorkflow against the well-formed workflows.
use spane.Base.{
  ℕ, zero, suc, ◌+◌, ◌≤◌, String, ◌≡◌, ◌≢◌, refl, ◌↔◌, ◌⊎◌, inl, inr, true, false, Option, none,
  some, List, [], ◌∷◌, ◌++◌, map, has, length, select, Bool-cases, arith, eq_iff,
}
use spane.Types.Workflow.{NodeDefinition, WorkflowDefinition}
use spane.Graph.Edges.{OnCycle}
use spane.Graph.Errors.{ValidationError}
use spane.Graph.Cycle.{detect_cycle}
use spane.Graph.Cycle.Detect.{nodes_by_id, detect_cycle_iff}
use spane.Graph.Cycle.Severity.{detect_cycle-error}
use spane.Graph.References.{find_missing_references, find_duplicate_node_ids}
use spane.Graph.References.Exact.{
  Mentions, occurrences, find_missing_references_iff, find_duplicate_node_ids_iff,
}
use spane.Graph.Validate.{
  some_node, validate_entry_node, push_error, push_found, duplicate_error, missing_error,
  unreachable_warning, collected_errors, is_error, validate_workflow, is_valid_workflow,
}

-- An entry node that exists, or none and a list of triggers.
abbrev pub EntryIsValid : WorkflowDefinition → Type 0
EntryIsValid w =
    ((w.entry_node_id ≡ "") × (w.triggers ≢ none))
    ⊎ ((w.entry_node_id ≢ "") × (has (map (λ n. n.id) w.nodes) w.entry_node_id ≡ true))

pub record WellFormed (w : WorkflowDefinition) : Type 0 where
  pub entry : EntryIsValid w
  pub acyclic : (u : String) → ¬ OnCycle (nodes_by_id w) u
  pub unique : (u : String) → occurrences w.nodes u ≤ 1
  pub closed : (u : String) → Mentions w.nodes u → has (map (λ n. n.id) w.nodes) u ≡ true

some_node-has :
    (ns : List NodeDefinition) (u : String) → some_node ns u ≡ has (map (λ n. n.id) ns) u
unfolding some_node has
some_node-has [] u = refl
some_node-has (n ∷ ns) u = ground (arith, some_node-has ns u)

-- validateEntryNode returns null exactly if the entry is valid: its id is that of a node of the workflow,
-- or there is none and there are triggers.
pub validate_entry_node_iff :
    (w : WorkflowDefinition) → (validate_entry_node w ≡ none) ↔ EntryIsValid w
unfolding validate_entry_node
validate_entry_node_iff w =
    ground (arith, eq_iff w.entry_node_id "", some_node-has w.nodes w.entry_node_id)

validate_entry_node-error :
    (w : WorkflowDefinition) (e : ValidationError)
    → validate_entry_node w ≡ some e
    → is_error e ≡ true
unfolding validate_entry_node
validate_entry_node-error w e h = ground arith

cycle_counts :
    (w : WorkflowDefinition) (e : ValidationError) → detect_cycle w ≡ some e → is_error e ≡ true
cycle_counts w e h = rw (detect_cycle-error w e h, is_error)

at_most : (n : ℕ) → (n ≤ 1) ⊎ (2 ≤ n)
at_most zero = inl (omega arith)
at_most (suc zero) = inl (omega arith)
at_most (suc (suc n)) = inr (omega arith)

nil_of_none_has : (xs : List String) → ((u : String) → has xs u ≡ false) → xs ≡ []
unfolding has
nil_of_none_has [] h = refl
nil_of_none_has (x ∷ xs) h = ground (arith, h x, eq_iff x x)

errors_of : List ValidationError → ℕ
errors_of es = length (select is_error es)

errors_of-append :
    (xs ys : List ValidationError) → errors_of (xs ++ ys) ≡ errors_of xs + errors_of ys
unfolding errors_of
errors_of-append [] ys = omega arith
errors_of-append (x ∷ xs) ys = ground (arith, errors_of-append xs ys)

errors_of-push_error :
    (o : Option ValidationError)
    → ((e : ValidationError) → o ≡ some e → is_error e ≡ true)
    → (errors_of (push_error o) ≡ 0) ↔ (o ≡ none)
unfolding errors_of
errors_of-push_error none h = ground arith
errors_of-push_error (some e) h = ground (arith, h e refl)

errors_of-push_found :
    (make : List String → ValidationError) (xs : List String)
    → is_error (make xs) ≡ true
    → (errors_of (push_found make xs) ≡ 0) ↔ (xs ≡ [])
unfolding errors_of
errors_of-push_found make [] h = ground arith
errors_of-push_found make (x ∷ xs) h = ground arith

errors_of-warning : (xs : List String) → errors_of (push_found unreachable_warning xs) ≡ 0
unfolding errors_of
errors_of-warning [] = refl
errors_of-warning (x ∷ xs) = refl

valid-errors_of :
    (w : WorkflowDefinition)
    → ((validate_workflow w).valid ≡ true) ↔ (errors_of (collected_errors w) ≡ 0)
unfolding validate_workflow errors_of
valid-errors_of w = ground arith

errors_of-collected :
    (w : WorkflowDefinition)
    → errors_of (collected_errors w)
      ≡ errors_of (push_error (validate_entry_node w))
        + (errors_of (push_error (detect_cycle w))
            + (errors_of (push_found duplicate_error (find_duplicate_node_ids w))
                + (errors_of (push_found missing_error (find_missing_references w)) + 0)))
unfolding collected_errors
errors_of-collected w = simp errors_of-append (rw errors_of-warning refl)

valid_parts :
    (w : WorkflowDefinition)
    → ((validate_workflow w).valid ≡ true) ↔ (
        (validate_entry_node w ≡ none)
        × (detect_cycle w ≡ none)
        × (find_duplicate_node_ids w ≡ [])
        × (find_missing_references w ≡ []))
valid_parts w = ground (
  arith,
  valid-errors_of w,
  errors_of-collected w,
  errors_of-push_error (validate_entry_node w) (validate_entry_node-error w),
  errors_of-push_error (detect_cycle w)
      (λ (e : ValidationError) (h : detect_cycle w ≡ some e). cycle_counts w e h),
  errors_of-push_found duplicate_error (find_duplicate_node_ids w) refl,
  errors_of-push_found missing_error (find_missing_references w) refl,
)

unique_iff :
    (w : WorkflowDefinition)
    → (find_duplicate_node_ids w ≡ []) ↔ ((u : String) → occurrences w.nodes u ≤ 1)
unfolding has
unique_iff w = (
  λ e u. elim (at_most (occurrences w.nodes u)) [
    | inl few ↦ few
    | inr many ↦
        let m : has [] u ≡ true = rw e at ((find_duplicate_node_ids_iff w u).1 many) in cc m
  ],
  λ few. nil_of_none_has (find_duplicate_node_ids w) (λ u.
      elim (Bool-cases (has (find_duplicate_node_ids w) u)) [
        | inl m ↦ absurd (omega (arith, (find_duplicate_node_ids_iff w u).0 m, few u))
        | inr m ↦ m
      ]),
)

closed_iff :
    (w : WorkflowDefinition)
    → (find_missing_references w ≡ [])
      ↔ ((u : String) → Mentions w.nodes u → has (map (λ n. n.id) w.nodes) u ≡ true)
unfolding has
closed_iff w = (
  λ e u m. elim (Bool-cases (has (map (λ n. n.id) w.nodes) u)) [
    | inl k ↦ k
    | inr k ↦ let f : has [] u ≡ true = rw e at ((find_missing_references_iff w u).1 (m, k)) in cc f
  ],
  λ closed. nil_of_none_has (find_missing_references w) (λ u.
      elim (Bool-cases (has (find_missing_references w) u)) [
        | inl f ↦ let (m, k) = (find_missing_references_iff w u).0 f in cc (closed u m, k)
        | inr f ↦ f
      ]),
)

-- isValidWorkflow holds exactly for the workflows whose entry is valid (a node of the
-- workflow, or none beside triggers), whose outputs form no cycle,
-- whose ids are unique and whose inputs and outputs name nodes of the workflow. Nodes that the entry
-- node does not reach never make a workflow invalid.
pub is_valid_workflow_iff : (w : WorkflowDefinition) → (is_valid_workflow w ≡ true) ↔ WellFormed w
unfolding is_valid_workflow
is_valid_workflow_iff w = (
  λ h.
      let (entry, cycle, dup, missing) = (valid_parts w).0 h in
      record {
        entry = (validate_entry_node_iff w).0 entry;
        acyclic = (detect_cycle_iff w).0 cycle;
        unique = (unique_iff w).0 dup;
        closed = (closed_iff w).0 missing;
      },
  λ f. (valid_parts w).1 (
    (validate_entry_node_iff w).1 f.entry,
    (detect_cycle_iff w).1 f.acyclic,
    (unique_iff w).1 f.unique,
    (closed_iff w).1 f.closed,
  ),
)
