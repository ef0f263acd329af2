-- ===== src/Engine/Flow/Returns.antt =====
-- src/engine/handlers/subworkflow-handler.ts: the recursion of buildFlowTreeFromEntryNodes ends.
use mathlib.Core.Option.{some-injective}
use mathlib.Core.Path.{subst}
use spane.Base.{
  ℕ, zero, suc, ◌<◌, String, ◌≡◌, ◌⊎◌, refl, sym, ◌∙◌, ap, inl, inr, Bool, true, Bool-cases, some,
  Option-cases, List, [], ◌∷◌, map, select, has, ◌==◌, arith, eq_iff, eq_refl,
}
use spane.Base.Dict.{Dict, get, put, get-put}
use spane.Types.Json.{Value}
use spane.Types.Workflow.{NodeDefinition, WorkflowDefinition}
use spane.Graph.Cycle.{fill_map, node_map}
use spane.Engine.World.{FlowJob, FlowJobs, flow_job, no_jobs, add_job}
use spane.Engine.Flow.{
  is_empty, Built, node_job, build_inputs, build_node_flow, build_roots, root_nodes,
  build_flow_tree,
}

-- every node of a list
abbrev pub AllNodes : (NodeDefinition → Type 0) → List NodeDefinition → Type 0
AllNodes P [] = Unit
AllNodes P (n ∷ ns) = P n × AllNodes P ns

-- the node that a job is for
abbrev pub job_node : FlowJob → String
job_node (flow_job name payload job_id fail_parent ignore_failure children) = payload.node_id

abbrev pub job_nodes : FlowJobs → List String
job_nodes no_jobs = []
job_nodes (add_job j js) = job_node j ∷ job_nodes js

held_cases {ℓ} :
    {V : Type ℓ} (d : Dict V) (k : String) (v : V) (j : String) (w : V)
    → get (put d k v) j ≡ some w
    → ((k ≡ j) × (v ≡ w)) ⊎ (get d j ≡ some w)
held_cases d k v j w e = elim (Bool-cases (k == j)) [
  | inl same ↦
      let held : get (put d k v) j ≡ some v = get-put d k v j ∙ rw same refl in
      inl ((eq_iff k j).0 same, some-injective _ _ (sym held ∙ e))
  | inr other ↦
      let kept : get (put d k v) j ≡ get d j = get-put d k v j ∙ rw other refl in inr (sym kept ∙ e)
]

fill_map-AllNodes :
    (P : NodeDefinition → Type 0) (ns : List NodeDefinition) (d : Dict NodeDefinition)
    → ((u : String) (n : NodeDefinition) → get d u ≡ some n → P n)
    → AllNodes P ns
    → (u : String) (n : NodeDefinition) → get (fill_map d ns) u ≡ some n
    → P n
unfolding fill_map
fill_map-AllNodes P [] d old h u n found = old u n found
fill_map-AllNodes P (m ∷ ns) d old h u n found =
    fill_map-AllNodes P ns (put d m.id m)
      (λ v k e. elim (held_cases d m.id m v k e) [
        | inl (_, same) ↦ subst P same h.0
        | inr before ↦ old v k before
      ])
      h.1 u n found

AllNodes-weaken :
    (P Q : NodeDefinition → Type 0)
    → ((n : NodeDefinition) → P n → Q n)
    → (ns : List NodeDefinition) → AllNodes P ns
    → AllNodes Q ns
AllNodes-weaken P Q f [] h = tt
AllNodes-weaken P Q f (n ∷ ns) h = (f n h.0, AllNodes-weaken P Q f ns h.1)

select-AllNodes :
    (P : NodeDefinition → Type 0) (p : NodeDefinition → Bool) (ns : List NodeDefinition)
    → AllNodes P ns
    → AllNodes P (select p ns)
select-AllNodes P p [] h = tt
select-AllNodes P p (n ∷ ns) h = elim (Bool-cases (p n)) [
  | inl e ↦ rw e (h.0, select-AllNodes P p ns h.1)
  | inr e ↦ rw e (select-AllNodes P p ns h.1)
]

-- a job is kept under the id of its node
abbrev Keyed : Dict FlowJob → Type 0
Keyed added = (k : String) (j : FlowJob) → get added k ≡ some j → job_node j ≡ k

Keyed-put :
    (added : Dict FlowJob) (job : FlowJob) → Keyed added → Keyed (put added (job_node job) job)
Keyed-put added job keyed k j e = elim (held_cases added (job_node job) job k j e) [
  | inl (same, held) ↦ ap job_node (sym held) ∙ same
  | inr before ↦ keyed k j before
]

module _ (workflow : WorkflowDefinition) (execution_id : String) (input : Value)
    (continue_on_fail : Bool) (level : NodeDefinition → ℕ) where
  -- the inputs of a node that are nodes of the workflow have a lower level
  abbrev pub IsLayered : NodeDefinition → Type 0
  IsLayered n =
      (i : String) (m : NodeDefinition)
      → has n.inputs i ≡ true
      → get (node_map workflow.nodes) i ≡ some m
      → level m < level n

  abbrev BuiltNode : NodeDefinition → Built FlowJob → Type 0
  BuiltNode n b =
      (j : FlowJob) × (added : Dict FlowJob) × (b ≡ some (j, added))
      × Keyed added
      × (job_node j ≡ n.id)

  abbrev BuiltInputs : Built FlowJobs → Type 0
  BuiltInputs b = (js : FlowJobs) × (added : Dict FlowJob) × (b ≡ some (js, added)) × Keyed added

  build_inputs-BuiltInputs :
      (build : NodeDefinition → Dict FlowJob → Built FlowJob) (is : List String)
      (added : Dict FlowJob)
      → Keyed added
      → ((i : String) (n : NodeDefinition)
          → has is i ≡ true
          → get (node_map workflow.nodes) i ≡ some n
          → (a : Dict FlowJob) → Keyed a
          → BuiltNode n (build n a))
      → BuiltInputs (build_inputs workflow execution_id input continue_on_fail build is added)
  unfolding build_inputs has
  build_inputs-BuiltInputs build [] added keyed h = (no_jobs, added, refl, keyed)
  build_inputs-BuiltInputs build (i ∷ is) added keyed h =
      let later = λ (k : String) (n : NodeDefinition) (l : has is k ≡ true). h k n (ground arith) in
      elim (Option-cases (get (node_map workflow.nodes) i)) [
        | inl e ↦ rw (e, build_inputs) (build_inputs-BuiltInputs build is added keyed later)
        | inr (n, e) ↦
            let (j, added', f, keyed', _) = h i n (rw eq_refl refl) e added keyed in
            let (js, added'', g, keyed'') = build_inputs-BuiltInputs build is added' keyed' later in
            rw (e, build_inputs) (rw f (rw g (add_job j js, added'', refl, keyed'')))
      ]

  -- a node of a layered workflow, with more fuel than its level
  abbrev pub IsFuelled : ℕ → NodeDefinition → Type 0
  IsFuelled fuel n = IsLayered n × (level n < fuel)

  build_node_flow-BuiltNode :
      AllNodes IsLayered workflow.nodes
      → (fuel : ℕ) (n : NodeDefinition) (added : Dict FlowJob) → IsLayered n
      → level n < fuel
      → Keyed added
      → BuiltNode n (build_node_flow workflow execution_id input continue_on_fail fuel n added)
  unfolding build_node_flow get
  build_node_flow-BuiltNode all zero n added layered below keyed = absurd (omega arith)
  build_node_flow-BuiltNode all (suc fuel) n added layered below keyed =
      elim (Option-cases (get added n.id)) [
        | inr (j, e) ↦ rw (e, build_node_flow) (j, added, refl, keyed, keyed n.id j e)
        | inl e ↦
            let (js, added', f, keyed') =
              build_inputs-BuiltInputs
                (build_node_flow workflow execution_id input continue_on_fail fuel) n.inputs added
                keyed
                (λ i m named found a k.
                  build_node_flow-BuiltNode all fuel m a
                    (fill_map-AllNodes IsLayered workflow.nodes [] (λ u x h. cc) all i m found)
                    (omega (arith, layered i m named found)) k) in
            let job = node_job workflow execution_id input continue_on_fail n js in
            rw (e, build_node_flow)
              (rw f (job, put added' n.id job, refl, Keyed-put added' job keyed', refl))
      ]

  abbrev BuiltRoots : List NodeDefinition → Built FlowJobs → Type 0
  BuiltRoots ns b =
      (js : FlowJobs) × (added : Dict FlowJob) × (b ≡ some (js, added))
      × (job_nodes js ≡ map (λ (n : NodeDefinition). n.id) ns)

  build_roots-BuiltRoots :
      AllNodes IsLayered workflow.nodes
      → (fuel : ℕ) (ns : List NodeDefinition) (added : Dict FlowJob) → AllNodes (IsFuelled fuel) ns
      → Keyed added
      → BuiltRoots ns (build_roots workflow execution_id input continue_on_fail fuel ns added)
  unfolding build_roots
  build_roots-BuiltRoots all fuel [] added h keyed = (no_jobs, added, refl, refl)
  build_roots-BuiltRoots all fuel (n ∷ ns) added h keyed =
      let (j, added', e, keyed', named) =
        build_node_flow-BuiltNode all fuel n added h.0.0 h.0.1 keyed in
      let (js, added'', f, names) = build_roots-BuiltRoots all fuel ns added' h.1 keyed' in
      rw (e, build_roots) (rw f (add_job j js, added'', refl, λ i. named i ∷ names i))

  root_nodes-AllNodes :
      (P : NodeDefinition → Type 0)
      → AllNodes P workflow.nodes
      → AllNodes P (root_nodes workflow execution_id input continue_on_fail)
  root_nodes-AllNodes P h =
      let final = select (λ (n : NodeDefinition). is_empty n.outputs) workflow.nodes in
      elim (Bool-cases (is_empty final)) [
        | inl e ↦ rw e h
        | inr e ↦ rw e (select-AllNodes P _ workflow.nodes h)
      ]

  -- Where the nodes have levels, so that the inputs of a node which are nodes have lower ones, and more
  -- fuel than the highest level is given, buildFlowTreeFromEntryNodes returns: one job for each node
  -- without outputs, in the order of the nodes, or for each node if there is none.
  pub build_flow_tree_returns :
      (fuel : ℕ)
      → AllNodes (IsFuelled fuel) workflow.nodes
      → (js : FlowJobs) × (build_flow_tree workflow execution_id input continue_on_fail fuel
          ≡ some js)
        × (job_nodes js
            ≡ map
                (λ (n : NodeDefinition). n.id)
                (root_nodes workflow execution_id input continue_on_fail))
  unfolding build_flow_tree get
  build_flow_tree_returns fuel h =
      let all = AllNodes-weaken (IsFuelled fuel) IsLayered (λ n k. k.0) workflow.nodes h in
      let (js, added, e, names) =
        build_roots-BuiltRoots all fuel (root_nodes workflow execution_id input continue_on_fail) []
          (root_nodes-AllNodes (IsFuelled fuel) h) (λ k j e. cc) in
      (js, rw (e, build_flow_tree) refl, names)
