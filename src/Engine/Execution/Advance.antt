-- ===== src/Engine/Execution/Advance.antt =====
-- src/engine/handlers/execution-handler.ts: the result of a node while its children are seen to.
use spane.Base.{
  ℕ, suc, String, ◌≡◌, refl, inl, inr, Bool, true, false, Bool-cases, Option, none, some, List, [],
  ◌∷◌, has, List-cases, Option-cases, arith, eq_refl,
}
use spane.Base.Dict.{get}
use spane.Types.Workflow.{NodeDefinition}
use spane.Types.Execution.{ExecutionResult, ExecutionState}
use spane.Memory.Executions.{results_of}
use spane.Memory.Executions.View.{view, update_view}
use spane.Engine.World.{World, Job, Deps, NodeJobData}
use spane.Engine.Children.{check_and_enqueue_children}
use spane.Engine.Children.Skips.{
  skipped_outputs, with_skips, get-with_skips, check_and_enqueue_children-skips,
}
use spane.Engine.Completion.{check_workflow_completion}
use spane.Engine.Completion.Locked.{completed_view}
use spane.Engine.Completion.Once.{view-check_workflow_completion}
use spane.Engine.Execution.{enqueue_outputs, advance}

-- the result that the store holds for a node
abbrev pub stored : World → String → String → Option ExecutionResult
stored w id node_id = get (results_of (view w.store id)) node_id

has-skipped_outputs :
    (next_nodes : Option (List String)) (outputs : List String) (k : String)
    → has outputs k ≡ false
    → has (skipped_outputs next_nodes outputs) k ≡ false
unfolding has
has-skipped_outputs none outputs k h = refl
has-skipped_outputs (some ns) [] k h = refl
has-skipped_outputs (some ns) (c ∷ cs) k h = elim (Bool-cases (has ns c)) [
  | inl e ↦ rw e (has-skipped_outputs (some ns) cs k (ground arith))
  | inr e ↦ rw e (ground (arith, has-skipped_outputs (some ns) cs k (ground arith)))
]

get-skipped :
    (ks : List String) (o : Option ExecutionState) (k : String)
    → has ks k ≡ false
    → get (results_of (update_view (with_skips ks) o)) k ≡ get (results_of o) k
get-skipped ks none k h = refl
get-skipped ks (some e) k h = rw (get-with_skips, h) refl

results_of-completed :
    (b : Bool) (now : ℕ) (o : Option ExecutionState)
    → results_of (completed_view b now o) ≡ results_of o
results_of-completed false now o = refl
results_of-completed true now none = refl
results_of-completed true now (some e) = refl

module _ (deps : Deps) (fuel : ℕ) (job_data : NodeJobData) (job : Job) (node : NodeDefinition) where
  -- a run that ends, and keeps what the store holds for the node `k`
  abbrev pub Keeps : String → World → Option World → Type 0
  Keeps k w o =
      (w' : World) × (o ≡ some w')
      × (stored w' job_data.execution_id k ≡ stored w job_data.execution_id k)

  check-Keeps :
      (next_nodes : Option (List String)) (w : World) (k : String)
      → has node.outputs k ≡ false
      → Keeps k w (
          check_and_enqueue_children deps job_data.execution_id job_data.workflow_id
            (some job)
            (suc (suc fuel))
            node
            next_nodes
            w)
  unfolding check_and_enqueue_children
  check-Keeps next_nodes w k h = elim (Option-cases (deps.workflow_of job_data.workflow_id)) [
    | inl e ↦ rw (e, check_and_enqueue_children) (w, refl, refl)
    | inr (workflow, e) ↦
        let (w', s, views) =
          check_and_enqueue_children-skips deps job_data.execution_id job_data.workflow_id
            (some job) fuel workflow node next_nodes w e in
        (
          w',
          s,
          rw (views job_data.execution_id, eq_refl)
              (get-skipped (skipped_outputs next_nodes node.outputs)
                (view w.store job_data.execution_id) k
                (has-skipped_outputs next_nodes node.outputs k h)),
        )
  ]

  enqueue_outputs-Keeps :
      (next_nodes : Option (List String)) (w : World) (k : String)
      → has node.outputs k ≡ false
      → Keeps k w (enqueue_outputs deps (suc (suc fuel)) job_data job node next_nodes w)
  enqueue_outputs-Keeps next_nodes w k h = elim (List-cases node.outputs) [
    | inl e ↦ rw (e, enqueue_outputs) (w, refl, refl)
    | inr (c, cs, e) ↦ rw (e, enqueue_outputs) (check-Keeps next_nodes w k h)
  ]

  pub advance-Keeps :
      (next_nodes : Option (List String)) (w : World) (k : String)
      → has node.outputs k ≡ false
      → Keeps k w (advance deps (suc (suc fuel)) job_data job node next_nodes w)
  unfolding advance
  advance-Keeps next_nodes w k h =
      let (w', s, kept) = enqueue_outputs-Keeps next_nodes w k h in
      let id = job_data.execution_id in
      (
        check_workflow_completion id job_data.workflow_id (some job) deps w',
        rw (s, advance) refl,
        rw (view-check_workflow_completion, eq_refl, results_of-completed) kept,
      )
