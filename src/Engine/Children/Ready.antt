-- ===== src/Engine/Children/Ready.antt =====
-- src/engine/handlers/child-enqueue-handler.ts: the children that are enqueued.
use spane.Base.{
  ℕ, suc, String, ◌≡◌, refl, sym, ◌∙◌, ap, subst, inl, inr, Bool, true, false, Bool-cases, Option,
  none, some, List, [], ◌∷◌, ◌++◌, append-nil, append_assoc, has, arith, eq_iff, if◌then◌else◌,
}
use spane.Base.Dict.{Dict}
use spane.Types.Workflow.{NodeDefinition, WorkflowDefinition, find_node}
use spane.Types.Execution.{ExecutionResult}
use spane.Memory.Executions.{get_node_results, results_of}
use spane.Memory.Executions.View.{view, view-get_execution, get-get_node_results}
use spane.Engine.World.{World, Job, Deps, Call, job_added, read_results}
use spane.Engine.Children.Expected.{all_past, plain_job, all_past-all_resolved, child_job-plain_job}
use spane.Engine.Children.{
  enqueue_node, all_resolved, enqueue_ready, each_child, skip_node_with, check_and_enqueue_children,
}

-- the results that the store holds for an execution
abbrev pub results_in : World → String → Dict ExecutionResult
results_in w id = results_of (view w.store id)

Same : World → World → Type 0
Same w w' = (j : String) → view w'.store j ≡ view w.store j

-- the child is a node of the workflow, and every parent has a result that succeeded or was skipped
abbrev pub ready_node : Option NodeDefinition → Dict ExecutionResult → Bool
ready_node none results = false
ready_node (some node) results = all_past node.inputs results

abbrev pub is_ready : WorkflowDefinition → Dict ExecutionResult → String → Bool
is_ready workflow results child = ready_node (find_node workflow.nodes child) results

module _ (deps : Deps) (execution_id workflow_id : String) (job : Option Job) where
  -- the calls of `nodeQueue.add` for the ready ones among the children, in their order
  abbrev pub ready_calls : WorkflowDefinition → Dict ExecutionResult → List String → List Call
  ready_calls workflow results [] = []
  ready_calls workflow results (child ∷ rest) =
      let more = ready_calls workflow results rest in
      if is_ready workflow results child
      then job_added (plain_job deps execution_id workflow_id child) ∷ more
      else more

  all_resolved_picked :
      (ids parents : List String) (w : World)
      → ((p : String) → has parents p ≡ true → has ids p ≡ true)
      → all_resolved parents (read_results execution_id ids w).0
        ≡ all_resolved parents (results_in w execution_id)
  unfolding has
  all_resolved_picked ids [] w h = refl
  all_resolved_picked ids (p ∷ ps) w h = ground (
    arith,
    all_resolved_picked ids ps w (λ (q : String) (m : has ps q ≡ true). h q (ground arith)),
    get-get_node_results w.now execution_id ids w.store p,
    h p (ground (arith, eq_iff p p)),
  )

  view-read_results :
      (ids : List String) (w : World) (j : String)
      → view (read_results execution_id ids w).1.store j ≡ view w.store j
  unfolding get_node_results
  view-read_results ids w j = view-get_execution w.now execution_id w.store j

  pub record Enqueues (w w' : World) (added : List Call) : Type 0 where
    calls : w'.calls ≡ w.calls ++ added
    pub same : (j : String) → view w'.store j ≡ view w.store j
    clock : w'.now ≡ w.now

  Enqueues-refl : (w : World) → Enqueues w w []
  Enqueues-refl w = record { calls = sym (append-nil w.calls); same = λ j. refl; clock = refl }

  Enqueues-trans :
      (u v w : World) (a b : List Call) → Enqueues u v a → Enqueues v w b → Enqueues u w (a ++ b)
  Enqueues-trans u v w a b p q = record {
    calls = q.calls ∙ (ap (λ l. l ++ b) p.calls ∙ append_assoc u.calls a b);
    same = λ j. q.same j ∙ p.same j;
    clock = q.clock ∙ p.clock;
  }

  pub enqueue_found-Enqueues :
      (workflow : WorkflowDefinition) (child : String) (w : World) (found : Option NodeDefinition)
      → find_node workflow.nodes child ≡ found
      → Enqueues w
          (enqueue_ready deps execution_id workflow_id job child found w)
          (ready_calls workflow (results_in w execution_id) (child ∷ []))
  unfolding enqueue_ready enqueue_node
  enqueue_found-Enqueues workflow child w none e = rw (e, ready_calls) (Enqueues-refl w)
  enqueue_found-Enqueues workflow child w (some node) e =
      elim (Bool-cases (all_past node.inputs (results_in w execution_id))) [
        | inl r ↦
            rw (e, picked, r, ready_calls)
              (record {
                calls =
                    ap (λ j. w.calls ++ job_added j ∷ [])
                      (child_job-plain_job deps execution_id workflow_id child);
                same = view-read_results node.inputs w;
                clock = refl;
              })
        | inr r ↦
            rw (e, picked, r, ready_calls)
              (record {
                calls = sym (append-nil w.calls);
                same = view-read_results node.inputs w;
                clock = refl;
              })
      ]
    where
      picked :
          all_resolved node.inputs (read_results execution_id node.inputs w).0
          ≡ all_past node.inputs (results_in w execution_id)
      picked =
          all_resolved_picked node.inputs node.inputs w (λ p h. h)
          ∙ all_past-all_resolved node.inputs (results_in w execution_id)

  ready_calls-append :
      (workflow : WorkflowDefinition) (results : Dict ExecutionResult) (child : String)
      (rest : List String)
      → ready_calls workflow results (child ∷ []) ++ ready_calls workflow results rest
        ≡ ready_calls workflow results (child ∷ rest)
  ready_calls-append workflow results child rest =
      elim (Bool-cases (is_ready workflow results child)) [ inl e ↦ rw e refl | inr e ↦ rw e refl ]

  each_child-Enqueues :
      (skip : String → World → Option World) (workflow : WorkflowDefinition) (outputs : List String)
      (w : World)
      → (w' : World) × (each_child deps execution_id workflow_id job skip workflow none outputs w
          ≡ some w')
        × Enqueues w w' (ready_calls workflow (results_in w execution_id) outputs)
  unfolding each_child
  each_child-Enqueues skip workflow [] w = (w, refl, Enqueues-refl w)
  each_child-Enqueues skip workflow (c ∷ cs) w =
      let w1 = enqueue_ready deps execution_id workflow_id job c (find_node workflow.nodes c) w in
      let first = enqueue_found-Enqueues workflow c w (find_node workflow.nodes c) refl in
      let (w', e, later) = each_child-Enqueues skip workflow cs w1 in
      let later' =
        subst (λ o. Enqueues w1 w' (ready_calls workflow (results_of o) cs))
          (first.same execution_id) later in
      (
        w',
        e,
        subst (Enqueues w w') (ready_calls-append workflow (results_in w execution_id) c cs)
            (Enqueues-trans w w1 w' _ _ first later'),
      )

-- Where a node of a known workflow selects no branches, and with fuel above 0, checkAndEnqueueChildren adds
-- exactly one job for each of its ready children to the queue, in the order of its outputs, and changes
-- nothing that a client of the store can read: a child is ready if it is a node of the workflow and each
-- of its parents has a result in the store that succeeded or marks it as skipped. The job names the
-- execution, the workflow and the child, has an id made of the execution and the child, no delay, and
-- the retries that the child's policy asks for.
pub check_and_enqueue_children-all :
    (deps : Deps) (execution_id workflow_id : String) (job : Option Job) (fuel : ℕ)
    (workflow : WorkflowDefinition) (node : NodeDefinition) (w : World)
    → deps.workflow_of workflow_id ≡ some workflow
    → (w' : World) × (check_and_enqueue_children deps execution_id workflow_id job
          (suc fuel)
          node
          none
          w
        ≡ some w')
      × (w'.calls
          ≡ w.calls
            ++ ready_calls deps execution_id workflow_id job workflow
                (results_in w execution_id)
                node.outputs)
      × ((j : String) → view w'.store j ≡ view w.store j)
unfolding check_and_enqueue_children
check_and_enqueue_children-all deps execution_id workflow_id job fuel workflow node w e =
    let (w', s, q) =
      each_child-Enqueues deps execution_id workflow_id job
        (skip_node_with deps execution_id workflow_id job
          (check_and_enqueue_children deps execution_id workflow_id job fuel))
        workflow node.outputs w in
    (w', rw (e, check_and_enqueue_children) s, q.calls, q.same)
