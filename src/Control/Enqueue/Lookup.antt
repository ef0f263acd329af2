-- ===== src/Control/Enqueue/Lookup.antt =====
-- src/engine/workflow-engine.ts: getWorkflow.
use spane.Base.{ℕ, String, ◌≡◌, refl, ◌∙◌, inl, inr, none, some, Option-cases}
use spane.Types.Workflow.{WorkflowDefinition}
use spane.Control.Queue.{NodeQueue}
use spane.Control.Services.{WorkflowCache, WorkflowStore}
use spane.Control.Enqueue.{Draw, Request, State, get_workflow, start_execution, enqueue_workflow}

module _ (node_queue : NodeQueue) (workflow_cache : WorkflowCache) (workflows : WorkflowStore) where
  open workflow_cache use {get, got_touched, got_set}
  open workflows use {stored}

  -- getWorkflow answers the cached workflow, or else the stored one. It changes only the cache, and what
  -- it answers is cached: the next lookup at the same time gets it from the cache, whatever is stored
  -- by then.
  pub get_workflow_lem :
      (id : String) (st : State node_queue workflow_cache workflows)
      → (let (answer, st') = get_workflow node_queue workflow_cache workflows id st in
          (answer ≡ (elim (get st.now id st.cache) [ some w ↦ some w | none ↦ stored id st.saved ]))
          × (get st.now id st'.cache ≡ answer)
          × (st'.store ≡ st.store)
          × (st'.queue ≡ st.queue)
          × (st'.saved ≡ st.saved)
          × (st'.metrics ≡ st.metrics)
          × (st'.now ≡ st.now))
  unfolding get_workflow
  get_workflow_lem id st = elim (Option-cases (get st.now id st.cache)) [
    | inr (w, hit) ↦
        rw (hit, get_workflow)
          (refl, got_touched st.now id id st.cache ∙ hit, refl, refl, refl, refl, refl)
    | inl missed ↦ elim (Option-cases (stored id st.saved)) [
      | inr (w, known) ↦
          rw (missed, get_workflow)
            (rw known (refl, got_set st.now id w _, refl, refl, refl, refl, refl))
      | inl unknown ↦
          rw (missed, get_workflow)
            (rw unknown
              (refl, got_touched st.now id id st.cache ∙ missed, refl, refl, refl, refl, refl))
    ]
  ]

  -- a request for a workflow that is found goes on with it
  pub enqueue_workflow_found :
      (decimal : ℕ → String) (draw : Draw) (r : Request) (workflow : WorkflowDefinition)
      (st : State node_queue workflow_cache workflows)
      → (get_workflow node_queue workflow_cache workflows r.workflow_id st).0 ≡ some workflow
      → enqueue_workflow node_queue workflow_cache workflows decimal draw r st
        ≡ start_execution node_queue workflow_cache workflows decimal draw r workflow
            (get_workflow node_queue workflow_cache workflows r.workflow_id st).1
  unfolding enqueue_workflow
  enqueue_workflow_found decimal draw r workflow st found = rw (found, enqueue_workflow) refl
