-- ===== src/Control/Enqueue/Entries.antt =====
-- src/engine/workflow-engine.ts: the jobs that enqueueWorkflow adds.
use Prim.Native.String
use text.Mathlib.TextLemmas.{append_cancel_left, append_cancel_right}
use spane.Base.{
  ℕ, String, ◌≡◌, refl, sym, ◌∙◌, ap, inl, inr, true, false, Bool-cases, Option, none, some, List,
  [], ◌∷◌, ◌==◌, if◌then◌else◌, arith, eq_iff,
}
use spane.Base.Int.{pos}
use spane.Types.Json.{str, num}
use spane.Types.Workflow.{NodeDefinition, find_node}
use spane.Engine.Flow.{node_data}
use spane.Control.Queue.{NodeQueue, QueuedJob, queued, or_added}
use spane.Control.Enqueue.{
  Draw, Request, given, text_or, manual_options, is_out_of_range, enqueue_node, enqueue_nodes,
}

find_node-eq_id :
    (ns : List NodeDefinition) (id : String) (n : NodeDefinition)
    → find_node ns id ≡ some n
    → (n.id == id) ≡ true
unfolding find_node
find_node-eq_id [] id n h = cc
find_node-eq_id (m ∷ ns) id n h = elim (Bool-cases (m.id == id)) [
  | inl same ↦ let m_is_n : m ≡ n = ground arith in sym (ap (λ i. i.id == id) m_is_n) ∙ same
  | inr other ↦ find_node-eq_id ns id n (ground arith)
]

module _ (node_queue : NodeQueue) (decimal : ℕ → String) (now : ℕ) (draw : Draw) (r : Request) where
  open node_queue use {Queue, job_of, added}

  -- its own id, or the one of the request
  abbrev pub job_id_of : NodeDefinition → String
  job_id_of n =
      text_or
        (String.◌++◌ draw.id
          (String.◌++◌ "-" (String.◌++◌ n.id (String.◌++◌ "-manual-" (decimal now)))))
        (given r.options.job_id)

  -- the job of an entry node
  abbrev pub entry_job : NodeDefinition → QueuedJob
  entry_job n =
      queued "process-node" (node_data draw.id r.workflow_id n.id r.initial_data) (record {
        job_id = job_id_of n;
        retry = record {
          attempts = pos 3;
          backoff = record { type = str "exponential"; delay = num (pos 1000) };
        };
        priority = r.options.priority;
        delay = r.options.delay;
        parent = given r.parent_job_id;
      })

  -- what is under a job id, once the nodes are enqueued
  abbrev pub after_entries : Option QueuedJob → String → List NodeDefinition → Option QueuedJob
  after_entries o k [] = o
  after_entries o k (n ∷ ns) =
      after_entries (if job_id_of n == k then or_added o (entry_job n) else o) k ns

  pub job_of-enqueue_nodes :
      (ns : List NodeDefinition) (q : Queue) (k : String)
      → is_out_of_range r.options.priority ≡ false
      → given r.parent_job_id ≡ none
      → job_of
          (enqueue_nodes node_queue decimal now draw.id r.workflow_id ns r.initial_data
            r.parent_job_id r.options q).1
          k
        ≡ after_entries (job_of q k) k ns
  unfolding enqueue_nodes
  job_of-enqueue_nodes [] q k range orphan = refl
  job_of-enqueue_nodes (n ∷ ns) q k range orphan =
      rw (range, enqueue_nodes)
        (rw (range, enqueue_node)
          (job_of-enqueue_nodes ns _ k range orphan
            ∙ ap (λ o. after_entries o k ns)
                (added "process-node" (node_data draw.id r.workflow_id n.id r.initial_data)
                  (manual_options node_queue decimal now draw.id n.id r.parent_job_id r.options) q k
                  orphan)))

  after_some :
      (j : QueuedJob) (k : String) (ns : List NodeDefinition) → after_entries (some j) k ns ≡ some j
  after_some j k [] = refl
  after_some j k (n ∷ ns) = elim (Bool-cases (job_id_of n == k)) [
    | inl e ↦ rw e (after_some j k ns)
    | inr e ↦ rw e (after_some j k ns)
  ]

  after_foreign :
      (o : Option QueuedJob) (id : String) (ns : List NodeDefinition) (k : String)
      → given r.options.job_id ≡ some id
      → (id == k) ≡ false
      → after_entries o k ns ≡ o
  after_foreign o id [] k e h = refl
  after_foreign o id (n ∷ ns) k e h =
      let there : (job_id_of n == k) ≡ false = rw e h in rw there (after_foreign o id ns k e h)

  -- with an id of its own for the jobs, the first of them keeps it
  pub after_shared :
      (q : Queue) (id : String) (n : NodeDefinition) (ns : List NodeDefinition) (k : String)
      → given r.options.job_id ≡ some id
      → job_of q id ≡ none
      → after_entries (job_of q k) k (n ∷ ns) ≡ (if id == k then some (entry_job n) else job_of q k)
  after_shared q id n ns k e fresh = elim (Bool-cases (id == k)) [
    | inl same ↦
        let h : (job_id_of n == k) ≡ true = rw e same in
        let free = ap (job_of q) (sym ((eq_iff id k).0 same)) ∙ fresh in
        rw (h, same) (rw free (after_some (entry_job n) k ns))
    | inr other ↦
        let h : (job_id_of n == k) ≡ false = rw e other in
        rw (h, other) (after_foreign (job_of q k) id ns k e other)
  ]

  job_id_of-injective :
      (n m : NodeDefinition)
      → given r.options.job_id ≡ none
      → job_id_of n ≡ job_id_of m
      → n.id ≡ m.id
  job_id_of-injective n m e h =
      let own = λ (n : NodeDefinition).
        ap
          (text_or (
            String.◌++◌ draw.id
              (String.◌++◌ "-" (String.◌++◌ n.id (String.◌++◌ "-manual-" (decimal now))))))
          e in
      append_cancel_right n.id m.id (String.◌++◌ "-manual-" (decimal now))
        (append_cancel_left "-" _ _ (append_cancel_left draw.id _ _ (sym (own n) ∙ h ∙ own m)))

  pub after_own :
      (ns : List NodeDefinition) (id : String) (n : NodeDefinition)
      → given r.options.job_id ≡ none
      → find_node ns id ≡ some n
      → after_entries none (job_id_of n) ns ≡ some (entry_job n)
  unfolding find_node
  after_own [] id n e h = cc
  after_own (m ∷ ns) id n e h = elim (Bool-cases (m.id == id)) [
    | inl same ↦
        let m_is_n : m ≡ n = ground arith in
        let here : (job_id_of m == job_id_of n) ≡ true = (eq_iff _ _).1 (ap job_id_of m_is_n) in
        rw here (after_some (entry_job m) (job_id_of n) ns ∙ ap (λ i. some (entry_job i)) m_is_n)
    | inr other ↦
        let found : find_node ns id ≡ some n = ground arith in
        let there : (job_id_of m == job_id_of n) ≡ false =
          elim (Bool-cases (job_id_of m == job_id_of n)) [
            | inl equal ↦
                let e1 = job_id_of-injective m n e ((eq_iff _ _).0 equal) in
                let e2 = ap (λ i. i == id) e1 ∙ find_node-eq_id ns id n found in cc
            | inr apart ↦ apart
          ] in
        rw there (after_own ns id n e found)
  ]
