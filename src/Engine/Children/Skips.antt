-- ===== src/Engine/Children/Skips.antt =====
-- src/engine/handlers/child-enqueue-handler.ts: the outputs that a selection of branches leaves out.
use spane.Base.{
  ℕ, suc, String, ◌≡◌, refl, ◌∙◌, inl, inr, true, not, Bool-cases, Option, none, some, List, [],
  ◌∷◌, has, select, Option-cases, arith, ◌==◌, eq_iff, eq_refl, if◌then◌else◌,
}
use spane.Base.Dict.{get, put, get-put}
use spane.Types.Workflow.{NodeDefinition, WorkflowDefinition, find_node}
use spane.Types.Json.{null}
use spane.Types.Execution.{ExecutionState, ExecutionResult}
use spane.Memory.Executions.{update_node_result}
use spane.Memory.Executions.View.{view, update_view, view-modify_execution}
use spane.Events.{ProgressPayload, node_skipped}
use spane.Engine.World.{World, Job, Deps, emit_if, store_result}
use spane.Engine.Children.{
  node_in, should_run, skip_result, enqueue_ready, each_child, skip_node_with,
  check_and_enqueue_children,
}
use spane.Engine.Children.Ready.{enqueue_found-Enqueues, check_and_enqueue_children-all}

-- the outputs that a selection does not name, in their order; none where there is no selection
abbrev pub skipped_outputs : Option (List String) → List String → List String
skipped_outputs none outputs = []
skipped_outputs (some next_nodes) outputs = select (λ c. not (has next_nodes c)) outputs

abbrev left_out : Option (List String) → List String → List String
left_out next_nodes outputs = select (λ c. not (should_run next_nodes c)) outputs

left_out-skipped_outputs :
    (next_nodes : Option (List String)) (outputs : List String)
    → left_out next_nodes outputs ≡ skipped_outputs next_nodes outputs
left_out-skipped_outputs none [] = refl
left_out-skipped_outputs none (c ∷ cs) = left_out-skipped_outputs none cs
left_out-skipped_outputs (some next_nodes) outputs = refl

-- the result of a node that was skipped
abbrev pub skip_mark : ExecutionResult
skip_mark = record {
  success = true;
  output = null;
  error = none;
  next_nodes = none;
  skipped = some true;
}

-- an execution with a skip result for each of the nodes
unfoldable pub with_skips : List String → ExecutionState → ExecutionState
with_skips [] e = e
with_skips (k ∷ ks) e = with_skips ks (record e { node_results = put e.node_results k skip_mark })

pub get-with_skips :
    (ks : List String) (e : ExecutionState) (k : String)
    → get (with_skips ks e).node_results k
      ≡ (if has ks k then some skip_mark else get e.node_results k)
unfolding with_skips has
get-with_skips [] e k = refl
get-with_skips (c ∷ ks) e k =
    let e' = record e { node_results = put e.node_results c skip_mark } in
    get-with_skips ks e' k ∙ ground (arith, eq_iff c k, get-put e.node_results c skip_mark k)

module _ (execution_id : String) where
  -- the view after skips for the nodes `ks`
  abbrev Skipped : List String → World → World → Type 0
  Skipped ks w w' =
      (j : String)
      → view w'.store j ≡ (
          if execution_id == j
          then update_view (with_skips ks) (view w.store execution_id)
          else view w.store j)

  update_view-id : (o : Option ExecutionState) → update_view (with_skips []) o ≡ o
  unfolding with_skips
  update_view-id none = refl
  update_view-id (some e) = refl

  update_view-cons :
      (c : String) (ks : List String) (o : Option ExecutionState)
      → update_view (with_skips ks) (update_view (with_skips (c ∷ [])) o)
        ≡ update_view (with_skips (c ∷ ks)) o
  unfolding with_skips
  update_view-cons c ks none = refl
  update_view-cons c ks (some e) = refl

  Skipped-nil : (w w' : World) → ((j : String) → view w'.store j ≡ view w.store j) → Skipped [] w w'
  Skipped-nil w w' same j =
      same j ∙ ground (arith, eq_iff execution_id j, update_view-id (view w.store execution_id))

  Skipped-cons :
      (c : String) (ks : List String) (u v w : World)
      → Skipped (c ∷ []) u v
      → Skipped ks v w
      → Skipped (c ∷ ks) u w
  Skipped-cons c ks u v w p q j =
      q j
      ∙ ground (
        arith,
        eq_iff execution_id j,
        p j,
        p execution_id,
        eq_refl execution_id,
        update_view-cons c ks (view u.store execution_id),
      )

module _ (deps : Deps) (execution_id workflow_id : String) (job : Option Job) where
  emit_if-store :
      (w : World) (o : Option Job) (p : ProgressPayload) → (emit_if o p w).store ≡ w.store
  emit_if-store w none p = refl
  emit_if-store w (some j) p = refl

  marked : String → World → World
  marked id w =
      emit_if job (node_skipped w.now id workflow_id execution_id)
        (store_result execution_id id skip_result w)

  Skipped-marked : (id : String) (w : World) → Skipped execution_id (id ∷ []) w (marked id w)
  unfolding marked update_node_result with_skips
  Skipped-marked id w j = rw (emit_if-store, view-modify_execution) refl

  -- a run that leaves the views as after the skips of `ks`
  abbrev Skips : List String → World → Option World → Type 0
  Skips ks w o = (w' : World) × (o ≡ some w') × Skipped execution_id ks w w'

  check_all-same :
      (fuel : ℕ) (node : NodeDefinition) (w : World)
      → (w' : World) × (check_and_enqueue_children deps execution_id workflow_id job
            (suc fuel)
            node
            none
            w
          ≡ some w')
        × ((j : String) → view w'.store j ≡ view w.store j)
  unfolding check_and_enqueue_children
  check_all-same fuel node w = elim (Option-cases (deps.workflow_of workflow_id)) [
    | inl e ↦ rw (e, check_and_enqueue_children) (w, refl, λ j. refl)
    | inr (workflow, e) ↦
        let (w', s, calls, same) =
          check_and_enqueue_children-all deps execution_id workflow_id job fuel workflow node w e in
        (w', s, same)
  ]

  skip_node-Skips :
      (fuel : ℕ) (id : String) (w : World)
      → Skips (id ∷ []) w (
          skip_node_with deps execution_id workflow_id job
            (check_and_enqueue_children deps execution_id workflow_id job (suc fuel))
            id
            w)
  unfolding skip_node_with marked
  skip_node-Skips fuel id w = elim (Option-cases (node_in (deps.workflow_of workflow_id) id)) [
    | inl e ↦ rw (e, skip_node_with) (marked id w, refl, Skipped-marked id w)
    | inr (node, e) ↦
        let (w', s, same) = check_all-same fuel node (marked id w) in
        rw (e, skip_node_with) (w', s, λ j. same j ∙ Skipped-marked id w j)
  ]

  each_child-Skips :
      (skip : String → World → Option World) (workflow : WorkflowDefinition)
      (next_nodes : Option (List String)) (outputs : List String) (w : World)
      → ((id : String) (w : World) → Skips (id ∷ []) w (skip id w))
      → Skips
          (left_out next_nodes outputs)
          w
          (each_child deps execution_id workflow_id job skip workflow next_nodes outputs w)
  unfolding each_child
  each_child-Skips skip workflow next_nodes [] w marks =
      (w, refl, Skipped-nil execution_id w w (λ j. refl))
  each_child-Skips skip workflow next_nodes (c ∷ cs) w marks =
      elim (Bool-cases (should_run next_nodes c)) [
        | inl e ↦
            let found = find_node workflow.nodes c in
            let w1 = enqueue_ready deps execution_id workflow_id job c found w in
            let same =
              (enqueue_found-Enqueues deps execution_id workflow_id job workflow c w found
                refl).same in
            let (w', s, q) = each_child-Skips skip workflow next_nodes cs w1 marks in
            rw (e, each_child) (w', s, λ j. q j ∙ rw (same j, same execution_id) refl)
        | inr e ↦
            let (w1, s1, p) = marks c w in
            let (w', s, q) = each_child-Skips skip workflow next_nodes cs w1 marks in
            rw (e, s1, each_child)
              (w', s, Skipped-cons execution_id c (left_out next_nodes cs) w w1 w' p q)
      ]

-- For a known workflow, every state of the store, every selection of branches and fuel 2 and above:
-- checkAndEnqueueChildren returns, and what a client of the store reads then differs in one thing only:
-- in the execution, if it exists, each output of the node that the selection does not name has a result
-- that is successful, without data, and marked as skipped, in place of any result that it had; without a
-- selection there is none. No other node is marked, children of the skipped ones included.
pub check_and_enqueue_children-skips :
    (deps : Deps) (execution_id workflow_id : String) (job : Option Job) (fuel : ℕ)
    (workflow : WorkflowDefinition) (node : NodeDefinition) (next_nodes : Option (List String))
    (w : World)
    → deps.workflow_of workflow_id ≡ some workflow
    → (w' : World) × (check_and_enqueue_children deps execution_id workflow_id job
          (suc (suc fuel))
          node
          next_nodes
          w
        ≡ some w')
      × ((j : String)
          → view w'.store j ≡ (
              if execution_id == j
              then update_view
                  (with_skips (skipped_outputs next_nodes node.outputs))
                  (view w.store execution_id)
              else view w.store j))
unfolding check_and_enqueue_children
check_and_enqueue_children-skips deps execution_id workflow_id job fuel workflow node next_nodes w
      e =
    rw (e, ← left_out-skipped_outputs next_nodes node.outputs, check_and_enqueue_children)
      (each_child-Skips deps execution_id workflow_id job _ workflow next_nodes node.outputs w
        (skip_node-Skips deps execution_id workflow_id job fuel))
