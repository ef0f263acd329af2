-- ===== src/Engine/Children/Fuel.antt =====
-- src/engine/handlers/child-enqueue-handler.ts: how deep checkAndEnqueueChildren and skipNode nest.
use spane.Base.{
  ℕ, suc, String, ◌≡◌, refl, inl, inr, Bool-cases, Option, none, some, List, [], ◌∷◌, Option-cases,
}
use spane.Types.Workflow.{NodeDefinition, WorkflowDefinition, find_node}
use spane.Engine.World.{World, Job, Deps}
use spane.Engine.Children.{
  node_in, should_run, enqueue_ready, each_child, skip_node_with, check_and_enqueue_children,
}

abbrev pub Returns : Option World → Type 0
Returns o = (w : World) × (o ≡ some w)

module _ (deps : Deps) (execution_id workflow_id : String) (job : Option Job) where
  each_child-Returns :
      (skip : String → World → Option World) (workflow : WorkflowDefinition)
      (next_nodes : Option (List String)) (outputs : List String) (w : World)
      → ((id : String) (w : World) → Returns (skip id w))
      → Returns (each_child deps execution_id workflow_id job skip workflow next_nodes outputs w)
  unfolding each_child
  each_child-Returns skip workflow next_nodes [] w total = (w, refl)
  each_child-Returns skip workflow next_nodes (c ∷ cs) w total =
      elim (Bool-cases (should_run next_nodes c)) [
        | inl e ↦
            rw (e, each_child)
              (each_child-Returns skip workflow next_nodes cs
                (enqueue_ready deps execution_id workflow_id job c (find_node workflow.nodes c) w)
                total)
        | inr e ↦
            let (w', s) = total c w in
            rw (e, s, each_child) (each_child-Returns skip workflow next_nodes cs w' total)
      ]

  -- without a selection of branches, `skip` is not called
  each_child_all-Returns :
      (skip : String → World → Option World) (workflow : WorkflowDefinition) (outputs : List String)
      (w : World)
      → Returns (each_child deps execution_id workflow_id job skip workflow none outputs w)
  unfolding each_child
  each_child_all-Returns skip workflow [] w = (w, refl)
  each_child_all-Returns skip workflow (c ∷ cs) w =
      each_child_all-Returns skip workflow cs
        (enqueue_ready deps execution_id workflow_id job c (find_node workflow.nodes c) w)

  check_all-Returns :
      (fuel : ℕ) (node : NodeDefinition) (w : World)
      → Returns
          (check_and_enqueue_children deps execution_id workflow_id job (suc fuel) node none w)
  unfolding check_and_enqueue_children
  check_all-Returns fuel node w = elim (Option-cases (deps.workflow_of workflow_id)) [
    | inl e ↦ rw (e, check_and_enqueue_children) (w, refl)
    | inr (workflow, e) ↦
        rw (e, check_and_enqueue_children) (each_child_all-Returns _ workflow node.outputs w)
  ]

  skip_node-Returns :
      (fuel : ℕ) (id : String) (w : World)
      → Returns (
          skip_node_with deps execution_id workflow_id job
            (check_and_enqueue_children deps execution_id workflow_id job (suc fuel))
            id
            w)
  unfolding skip_node_with
  skip_node-Returns fuel id w = elim (Option-cases (node_in (deps.workflow_of workflow_id) id)) [
    | inl e ↦ rw (e, skip_node_with) (_, refl)
    | inr (node, e) ↦ rw (e, skip_node_with) (check_all-Returns fuel node _)
  ]

-- The enqueueing of children ends for every workflow, cyclic ones included, at fuel 2 and above,
-- whatever branches the node selected.
pub check_and_enqueue_children-returns :
    (deps : Deps) (execution_id workflow_id : String) (job : Option Job) (fuel : ℕ)
    (node : NodeDefinition) (next_nodes : Option (List String)) (w : World)
    → (w' : World) × (check_and_enqueue_children deps execution_id workflow_id job
          (suc (suc fuel))
          node
          next_nodes
          w
        ≡ some w')
unfolding check_and_enqueue_children
check_and_enqueue_children-returns deps execution_id workflow_id job fuel node next_nodes w =
    elim (Option-cases (deps.workflow_of workflow_id)) [
      | inl e ↦ rw (e, check_and_enqueue_children) (w, refl)
      | inr (workflow, e) ↦
          rw (e, check_and_enqueue_children)
            (each_child-Returns deps execution_id workflow_id job _ workflow next_nodes node.outputs
              w (skip_node-Returns deps execution_id workflow_id job fuel))
    ]
