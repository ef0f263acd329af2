-- ===== src/Samples/Flows.antt =====
-- The flow tree of a concrete workflow.
use mathlib.Core.Path.{subst}
use mathlib.Core.Option.{some-injective}
use spane.Base.{
  ℕ, ◌<◌, String, ◌≡◌, refl, sym, ◌∙◌, ap, true, false, some, [], ◌∷◌, has, ◌==◌, if◌then◌else◌,
  arith, eq_iff,
}
use spane.Base.Dict.{get, put}
use spane.Types.Json.{null}
use spane.Types.Workflow.{NodeDefinition}
use spane.Graph.Cycle.{node_map, fill_map}
use spane.Engine.World.{FlowJobs}
use spane.Engine.Flow.{build_flow_tree}
use spane.Engine.Flow.Returns.{job_nodes, IsFuelled, build_flow_tree_returns}
use spane.Samples.Workflows.{orders, fetch, check, save}

-- how many nodes come before a node
abbrev level : NodeDefinition → ℕ
level n = if n.id == "fetch" then 0 else if n.id == "check" then 1 else 2

sole_input :
    (u i : String) (m x : NodeDefinition)
    → has (u ∷ []) i ≡ true
    → get (node_map orders.nodes) i ≡ some m
    → get (node_map orders.nodes) u ≡ some x
    → m ≡ x
unfolding has
sole_input u i m x named found known =
    let same : u ≡ i = (eq_iff u i).0 (ground arith) in
    some-injective _ _ (sym found ∙ ap (get (node_map orders.nodes)) (sym same) ∙ known)

build_flow_tree_returns_example :
    (js : FlowJobs) × (build_flow_tree orders "exec-2" null false 3 ≡ some js)
    × (job_nodes js ≡ "save" ∷ "alert" ∷ [])
unfolding has fill_map get put
build_flow_tree_returns_example =
    let behind_check : IsFuelled orders "exec-2" null false level 3 save = (
      λ i m named found.
          subst (λ y. level y < 2) (sym (sole_input "check" i m check named found refl))
            (omega arith),
      omega arith,
    ) in
    build_flow_tree_returns orders "exec-2" null false level 3 (
      ((λ i m named found. cc), omega arith),
      (
        (
          λ i m named found.
              subst (λ y. level y < 1) (sym (sole_input "fetch" i m fetch named found refl))
                (omega arith),
          omega arith,
        ),
        (behind_check, (behind_check, tt)),
      ),
    )
