-- ===== src/Graph/Cycle/Detect.antt =====
-- src/engine/graph-validation.ts: detectCycle against the cycles of the graph.
use spane.Base.{
  ℕ, suc, ◌<◌, String, ◌≡◌, refl, subst, ◌↔◌, ◌⊎◌, inl, inr, ⊎_elim, true, Option, none, some, List,
  [], ◌∷◌, map, has, has-cons, length, Option-cases, arith,
}
use spane.Base.Dict.{Dict, get, put, get-put}
use spane.Base.Counts.{missing-le}
use spane.Types.Workflow.{NodeDefinition, WorkflowDefinition}
use spane.Graph.Edges.{Lookup, Edge, Reach, here, step, Leads, OnCycle, Safe, Safe-not-OnCycle}
use spane.Graph.Errors.{ValidationError}
use spane.Graph.Cycle.{
  Verdict, cycle, clear, out_of_fuel, fill_map, node_map, has_cycle_from_node, fresh, report,
  detect_from, detect_cycle,
}
use spane.Graph.Cycle.Search.{Ready, Outcome, has_cycle_from_node-Outcome}
use spane.Graph.Cycle.Fuel.{Ends, has_cycle_from_node-Ends}

abbrev pub ids : List NodeDefinition → List String
ids nodes = map (λ n. n.id) nodes

pub length-ids : (nodes : List NodeDefinition) → length (ids nodes) ≡ length nodes
length-ids [] = refl
length-ids (n ∷ ns) = omega (arith, length-ids ns)

-- the edges that the source follows: `nodeMap.get(u).outputs`
abbrev pub nodes_by_id : WorkflowDefinition → Lookup
nodes_by_id workflow = get (node_map workflow.nodes)

get-fill_map :
    (ns : List NodeDefinition) (d : Dict NodeDefinition) (u : String) (n : NodeDefinition)
    → get (fill_map d ns) u ≡ some n
    → (has (ids ns) u ≡ true) ⊎ (get d u ≡ some n)
unfolding fill_map has
get-fill_map [] d u n h = inr h
get-fill_map (m ∷ ns) d u n h =
    ground (arith, get-fill_map ns (put d m.id m) u n, get-put d m.id m u)

-- A node that the map holds is a node of the workflow.
pub get-node_map-has :
    (nodes : List NodeDefinition) (u : String) (n : NodeDefinition)
    → get (node_map nodes) u ≡ some n
    → has (ids nodes) u ≡ true
unfolding get
get-node_map-has nodes u n h = ⊎_elim (λ m. m) (λ e. cc) (get-fill_map nodes [] u n h)

fresh-Ready : (look : Lookup) (id : String) → Ready look id fresh
unfolding has
fresh-Ready look id = record {
  inv = record { stacked = λ u h. cc; settled = λ u h k. cc };
  chain = λ u h. cc;
}

record Cyclic (look : Lookup) : Type 0 where
  node : String
  on_cycle : OnCycle look node

abbrev Answer : Lookup → List String → Option ValidationError → Type 0
Answer look us none = (u : String) → has us u ≡ true → Safe look u
Answer look us (some e) = Cyclic look

module _ (look : Lookup) (fuel : ℕ) (all : List String)
    (known : (u : String) (n : NodeDefinition) → look u ≡ some n → has all u ≡ true)
    (enough : length all < fuel) where
  report-Answer :
      (id : String) (us : List String) (v : Verdict) (rest : Option ValidationError)
      → Outcome look id fresh v
      → Ends fresh v
      → Answer look us rest
      → Answer look (id ∷ us) (report id v rest)
  unfolding report
  report-Answer id us (cycle w) rest o e a = record { node = o.node; on_cycle = o.on_cycle }
  report-Answer id us out_of_fuel rest o e a = absurd e
  report-Answer id us (clear w) none o e a =
      λ u h. ⊎_elim (λ same. rw (← same) o.is_safe) (a u) (has-cons id us u h)
  report-Answer id us (clear w) (some err) o e a = a

  detect_from-Answer : (ns : List NodeDefinition) → Answer look (ids ns) (detect_from look fuel ns)
  unfolding detect_from has
  detect_from-Answer [] = λ u h. cc
  detect_from-Answer (n ∷ ns) =
      report-Answer n.id (ids ns) (has_cycle_from_node look fuel n.id fresh)
        (detect_from look fuel ns)
        (has_cycle_from_node-Outcome look fuel n.id fresh (fresh-Ready look n.id))
        (has_cycle_from_node-Ends all look known fuel n.id fresh (omega (arith, missing-le all [])))
        (detect_from-Answer ns)

Leads-found :
    (look : Lookup) {u v : String} → Leads look u v → (n : NodeDefinition) × (look u ≡ some n)
Leads-found look l = go l.walk l.back
  where
    go :
        {u v w : String} → Reach look u v → Edge look v w → (n : NodeDefinition) × (look u ≡ some n)
    go here e = (e.node, e.found)
    go (step r f) e = go r f

detect_cycle-Answer :
    (workflow : WorkflowDefinition)
    → Answer (nodes_by_id workflow) (ids workflow.nodes) (detect_cycle workflow)
unfolding detect_cycle
detect_cycle-Answer workflow =
    detect_from-Answer (nodes_by_id workflow) (suc (length workflow.nodes)) (ids workflow.nodes)
      (get-node_map-has workflow.nodes) (omega (arith, length-ids workflow.nodes)) workflow.nodes

-- detectCycle returns null exactly when no node of the workflow lies on a cycle of outputs.
pub detect_cycle_iff :
    (workflow : WorkflowDefinition)
    → (detect_cycle workflow ≡ none) ↔ ((u : String) → ¬ OnCycle (nodes_by_id workflow) u)
detect_cycle_iff workflow = (
  λ e u c.
      let (n, found) = Leads-found look c in
      Safe-not-OnCycle look
        (subst (Answer look (ids workflow.nodes)) e (detect_cycle-Answer workflow) u
          (get-node_map-has workflow.nodes u n found))
        c,
  λ acyclic. elim (Option-cases (detect_cycle workflow)) [
    | inl e ↦ e
    | inr (err, e) ↦
        let c = subst (Answer look (ids workflow.nodes)) e (detect_cycle-Answer workflow) in
        absurd (acyclic c.node c.on_cycle)
  ],
)
  where
    look : Lookup
    look = nodes_by_id workflow
