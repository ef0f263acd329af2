-- ===== src/Control/Enqueue/Accepted.antt =====
-- src/engine/workflow-engine.ts: a request that enqueueWorkflow accepts.
use spane.Base.{
  ℕ, String, ◌≡◌, refl, ◌∙◌, ap, inl, inr, false, Bool-cases, none, some, List, ◌∷◌, leb, ◌==◌,
  if◌then◌else◌,
}
use spane.Types.Workflow.{NodeDefinition, WorkflowDefinition, find_node}
use spane.Errors.{max_depth_exceeded_error}
use spane.Control.Queue.{NodeQueue}
use spane.Control.Services.{WorkflowCache, WorkflowStore, ended}
use spane.Control.Enqueue.{
  max_subworkflow_depth, Draw, Request, given, is_out_of_range, priority_error, entry_nodes,
  enqueue_nodes, enqueue_entries, State, get_workflow, start_execution, enqueue_workflow,
}
use spane.Control.Enqueue.Entries.{
  job_id_of, entry_job, after_entries, job_of-enqueue_nodes, after_shared, after_own,
}
use spane.Control.Enqueue.Lookup.{get_workflow_lem, enqueue_workflow_found}
use spane.Control.Enqueue.Refused.{refusal, is_allowed-is_out_of_range, accepted_nodes}

module _ (node_queue : NodeQueue) (workflow_cache : WorkflowCache) (workflows : WorkflowStore)
    (decimal : ℕ → String) (draw : Draw) (r : Request) (workflow : WorkflowDefinition)
    (entries : List NodeDefinition) (st : State node_queue workflow_cache workflows) where
  open node_queue use {job_of}

  accepted_start :
      (start : State node_queue workflow_cache workflows)
      → refusal decimal workflow r ≡ none
      → entry_nodes workflow r.workflow_id ≡ ended entries
      → (let ran =
            start_execution node_queue workflow_cache workflows decimal draw r workflow start in
          (ran.0 ≡ ended draw.id)
          × (ran.1.queue
              ≡ (enqueue_nodes node_queue decimal start.now draw.id r.workflow_id entries
                  r.initial_data r.parent_job_id r.options start.queue).1))
        × (is_out_of_range r.options.priority ≡ false)
  unfolding start_execution
  accepted_start start h e = elim (Bool-cases (leb max_subworkflow_depth r.depth)) [
    | inl deep ↦
        let refused : refusal decimal workflow r
            ≡ some (max_depth_exceeded_error decimal r.depth max_subworkflow_depth) =
          rw deep refl in
        cc
    | inr shallow ↦ elim (Bool-cases (is_out_of_range r.options.priority)) [
      | inl out ↦
          let refused : refusal decimal workflow r ≡ some priority_error =
            rw (shallow, e) (rw (is_allowed-is_out_of_range r.options.priority, out) refl) in
          cc
      | inr range ↦
          rw (shallow, start_execution)
            (rw e (
              rw
                (
                  accepted_nodes node_queue workflow_cache workflows decimal start.now draw.id
                      r.workflow_id entries r.initial_data r.parent_job_id r.options start.queue
                      range,
                  enqueue_entries,
                )
                ((refl, refl), range)))
    ]
  ]

  -- what an accepted request answers, and what it leaves under the ids of the jobs
  accepted :
      (k : String)
      → (get_workflow node_queue workflow_cache workflows r.workflow_id st).0 ≡ some workflow
      → refusal decimal workflow r ≡ none
      → entry_nodes workflow r.workflow_id ≡ ended entries
      → given r.parent_job_id ≡ none
      → (let ran = enqueue_workflow node_queue workflow_cache workflows decimal draw r st in
          (ran.0 ≡ ended draw.id)
          × (job_of ran.1.queue k
              ≡ after_entries node_queue decimal st.now draw r (job_of st.queue k) k entries))
  accepted k found h e orphan =
      let start = (get_workflow node_queue workflow_cache workflows r.workflow_id st).1 in
      let (_, _, _, queue, _, _, now) =
        get_workflow_lem node_queue workflow_cache workflows r.workflow_id st in
      let ((answer, jobs), range) = accepted_start start h e in
      rw
        (enqueue_workflow_found node_queue workflow_cache workflows decimal draw r workflow st
          found)
        (
          answer,
          ap (λ q. job_of q k)
                (jobs ∙ (λ i.
                  (enqueue_nodes node_queue decimal (now i) draw.id r.workflow_id entries
                    r.initial_data r.parent_job_id r.options (queue i)).1))
              ∙ job_of-enqueue_nodes node_queue decimal st.now draw r entries st.queue k range
                  orphan,
        )

  -- A request without a job id and a parent job, for a workflow that is known and not refused, answers the
  -- id of the execution, and for each of the entry nodes that its id finds, if its job id is free, the
  -- queue then has a job under an id of its own: with the entry node's id and the data of the request.
  pub enqueue_workflow_entries :
      (id : String) (n : NodeDefinition)
      → (get_workflow node_queue workflow_cache workflows r.workflow_id st).0 ≡ some workflow
      → refusal decimal workflow r ≡ none
      → entry_nodes workflow r.workflow_id ≡ ended entries
      → given r.parent_job_id ≡ none
      → given r.options.job_id ≡ none
      → find_node entries id ≡ some n
      → job_of st.queue (job_id_of node_queue decimal st.now draw r n) ≡ none
      → (let ran = enqueue_workflow node_queue workflow_cache workflows decimal draw r st in
          (ran.0 ≡ ended draw.id)
          × (job_of ran.1.queue (job_id_of node_queue decimal st.now draw r n)
              ≡ some (entry_job node_queue decimal st.now draw r n)))
  enqueue_workflow_entries id n found h e orphan own entry free =
      let (answer, jobs) =
        accepted (job_id_of node_queue decimal st.now draw r n) found h e orphan in
      (
        answer,
        jobs
            ∙ ap
                (λ o.
                  after_entries node_queue decimal st.now draw r o
                    (job_id_of node_queue decimal st.now draw r n) entries)
                free
            ∙ after_own node_queue decimal st.now draw r entries id n own entry,
      )

  -- A request with a job id, which is free in the queue, and without a parent job, for a workflow that is
  -- known and not refused, adds one job alone, that of the first entry node, however many entry nodes
  -- there are; it answers the id of the execution as if all were added.
  pub enqueue_workflow_shared :
      (id : String) (n : NodeDefinition) (ns : List NodeDefinition) (k : String)
      → (get_workflow node_queue workflow_cache workflows r.workflow_id st).0 ≡ some workflow
      → refusal decimal workflow r ≡ none
      → entry_nodes workflow r.workflow_id ≡ ended entries
      → entries ≡ n ∷ ns
      → given r.parent_job_id ≡ none
      → given r.options.job_id ≡ some id
      → job_of st.queue id ≡ none
      → (let ran = enqueue_workflow node_queue workflow_cache workflows decimal draw r st in
          (ran.0 ≡ ended draw.id)
          × (job_of ran.1.queue k ≡ (
              if id == k
              then some (entry_job node_queue decimal st.now draw r n)
              else job_of st.queue k)))
  enqueue_workflow_shared id n ns k found h e split orphan shared free =
      let (answer, jobs) = accepted k found h e orphan in
      (
        answer,
        jobs
            ∙ ap (after_entries node_queue decimal st.now draw r (job_of st.queue k) k) split
            ∙ after_shared node_queue decimal st.now draw r st.queue id n ns k shared free,
      )
