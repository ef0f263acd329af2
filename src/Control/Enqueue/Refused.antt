-- ===== src/Control/Enqueue/Refused.antt =====
-- src/engine/workflow-engine.ts: the errors of enqueueWorkflow, and what they leave behind.
use spane.Base.{
  ℕ, String, ◌≡◌, ◌⊎◌, refl, sym, ◌∙◌, ap, inl, inr, Bool, true, false, not, Bool-cases, Option,
  none, some, Option-cases, List, [], ◌∷◌, List-cases, leb, select, ◌==◌, ◌&&◌, arith,
  if◌then◌else◌,
}
use spane.Base.Int.{ℤ, pos, negsuc}
use spane.Types.Workflow.{NodeDefinition, WorkflowDefinition, find_node}
use spane.Engine.Flow.{is_empty}
use mathlib.Core.Option.{some-injective}
use spane.Types.Json.{Value}
use spane.Memory.Executions.{create_execution}
use spane.Errors.{Failure, other_error, max_depth_exceeded_error}
use spane.Control.Queue.{NodeQueue}
use spane.Control.Services.{WorkflowCache, WorkflowStore, EngineState, Ended, ended, raised}
use spane.Control.Enqueue.Lookup.{get_workflow_lem, enqueue_workflow_found}
use spane.Control.Enqueue.{
  max_subworkflow_depth, EnqueueOptions, Draw, Request, is_out_of_range, priority_error,
  entry_nodes, enqueue_nodes, enqueue_entries, State, get_workflow, start_execution,
  enqueue_workflow,
}

-- a priority from 1 to 10, or none
abbrev pub is_allowed : Option ℤ → Bool
is_allowed none = true
is_allowed (some (pos n)) = leb 1 n && leb n 10
is_allowed (some (negsuc n)) = false

pub is_allowed-is_out_of_range : (p : Option ℤ) → is_allowed p ≡ not (is_out_of_range p)
is_allowed-is_out_of_range none = refl
is_allowed-is_out_of_range (some (pos n)) = ground arith
is_allowed-is_out_of_range (some (negsuc n)) = refl

-- why a request for a workflow is refused, in the order of the checks
abbrev pub refusal : (ℕ → String) → WorkflowDefinition → Request → Option Failure
refusal decimal workflow r =
    if leb 10 r.depth
    then some (max_depth_exceeded_error decimal r.depth 10)
    else elim (entry_nodes workflow r.workflow_id) [
      | raised f ↦ some f
      | ended entries ↦
          if is_allowed r.options.priority
          then none
          else some (other_error "Priority must be between 1 and 10")
    ]

entry_nodes-cases :
    (workflow : WorkflowDefinition) (id : String)
    → ((f : Failure) × (entry_nodes workflow id ≡ raised f))
      ⊎ ((n : NodeDefinition) × (ns : List NodeDefinition) × (entry_nodes workflow id
            ≡ ended (n ∷ ns)))
unfolding entry_nodes
entry_nodes-cases workflow id = elim (Bool-cases (workflow.entry_node_id == "")) [
  | inl e ↦ elim (List-cases (select (λ n. is_empty n.inputs) workflow.nodes)) [
    | inl l ↦ rw (e, l) (inl (_, refl))
    | inr (n, ns, l) ↦ rw (e, l) (inr (n, ns, refl))
  ]
  | inr e ↦ elim (Option-cases (find_node workflow.nodes workflow.entry_node_id)) [
    | inl l ↦ rw (e, l) (inl (_, refl))
    | inr (n, l) ↦ rw (e, l) (inr (n, [], refl))
  ]
]

-- The request ends with the error and with the queue as it was, and the store has the new execution.
abbrev pub Leaves :
    {Q C S : Type 0}
    → Draw
    → Request
    → Failure
    → EngineState Q C S
    → Ended String × EngineState Q C S
    → Type 0
Leaves draw r f st ran =
    (ran.0 ≡ raised f)
    × (ran.1.queue ≡ st.queue)
    × (ran.1.store
        ≡ create_execution st.now draw.id r.workflow_id r.parent_execution_id r.depth r.initial_data
            st.store)

module _ (node_queue : NodeQueue) (workflow_cache : WorkflowCache) (workflows : WorkflowStore)
    (decimal : ℕ → String) where
  open node_queue use {Queue}

  refused_nodes :
      (now : ℕ) (id workflow_id : String) (n : NodeDefinition) (ns : List NodeDefinition)
      (v : Value) (parent : Option String) (options : EnqueueOptions) (q : Queue)
      → is_out_of_range options.priority ≡ true
      → enqueue_nodes node_queue decimal now id workflow_id (n ∷ ns) v parent options q
        ≡ (some priority_error, q)
  unfolding enqueue_nodes
  refused_nodes now id workflow_id n ns v parent options q h = rw (h, enqueue_nodes) (rw h refl)

  pub accepted_nodes :
      (now : ℕ) (id workflow_id : String) (ns : List NodeDefinition) (v : Value)
      (parent : Option String) (options : EnqueueOptions) (q : Queue)
      → is_out_of_range options.priority ≡ false
      → (enqueue_nodes node_queue decimal now id workflow_id ns v parent options q).0 ≡ none
  unfolding enqueue_nodes
  accepted_nodes now id workflow_id [] v parent options q h = refl
  accepted_nodes now id workflow_id (n ∷ ns) v parent options q h =
      rw (h, enqueue_nodes) (accepted_nodes now id workflow_id ns v parent options _ h)

  same_error :
      (A : Type 0) (o : Option Failure) (f g : Failure)
      → o ≡ some g
      → o ≡ some f
      → ◌≡◌ {A = Ended A} (raised g) (raised f)
  same_error A o f g e h = ap raised (some-injective _ _ (sym e ∙ h))

  refused_start :
      (draw : Draw) (r : Request) (workflow : WorkflowDefinition) (f : Failure)
      (st : State node_queue workflow_cache workflows)
      → refusal decimal workflow r ≡ some f
      → Leaves draw r f st
          (start_execution node_queue workflow_cache workflows decimal draw r workflow st)
  unfolding start_execution
  refused_start draw r workflow f st h = elim (Bool-cases (leb max_subworkflow_depth r.depth)) [
    | inl deep ↦
        rw (deep, start_execution)
          (same_error String (refusal decimal workflow r) f _ (rw deep refl) h, refl, refl)
    | inr shallow ↦ elim (entry_nodes-cases workflow r.workflow_id) [
      | inl (g, e) ↦
          rw (shallow, start_execution)
            (rw e (
              same_error String (refusal decimal workflow r) f _ (rw (shallow, e) refl) h,
              refl,
              refl,
            ))
      | inr (n, ns, e) ↦ elim (Bool-cases (is_out_of_range r.options.priority)) [
        | inl out ↦
            rw (shallow, start_execution)
              (rw e (
                let stopped =
                  refused_nodes st.now draw.id r.workflow_id n ns r.initial_data r.parent_job_id
                    r.options st.queue out in
                rw (stopped, enqueue_entries)
                  (
                    same_error String (refusal decimal workflow r) f _
                        (rw (shallow, e)
                          (rw (is_allowed-is_out_of_range r.options.priority, out) refl))
                        h,
                    ap (λ o. o.1) stopped,
                    refl,
                  )))
        | inr range ↦
            let none_left : refusal decimal workflow r ≡ none =
              rw (shallow, e) (rw (is_allowed-is_out_of_range r.options.priority, range) refl) in
            cc
      ]
    ]
  ]

  -- A request for a workflow that the cache or the store knows is refused for its depth, its entry nodes or
  -- its priority: it answers that error and adds no job, and yet its execution has been created, as
  -- running.
  pub enqueue_workflow-refused :
      (draw : Draw) (r : Request) (workflow : WorkflowDefinition) (f : Failure)
      (st : State node_queue workflow_cache workflows)
      → (get_workflow node_queue workflow_cache workflows r.workflow_id st).0 ≡ some workflow
      → refusal decimal workflow r ≡ some f
      → Leaves draw r f st (enqueue_workflow node_queue workflow_cache workflows decimal draw r st)
  enqueue_workflow-refused draw r workflow f st found h =
      let looked = (get_workflow node_queue workflow_cache workflows r.workflow_id st).1 in
      let (_, _, store, queue, _, _, now) =
        get_workflow_lem node_queue workflow_cache workflows r.workflow_id st in
      let (a, b, c) = refused_start draw r workflow f looked h in
      rw
        (enqueue_workflow_found node_queue workflow_cache workflows decimal draw r workflow st
          found)
        (
          a,
          b ∙ queue,
          c ∙ (λ i.
              create_execution (now i) draw.id r.workflow_id r.parent_execution_id r.depth
                r.initial_data (store i)),
        )
