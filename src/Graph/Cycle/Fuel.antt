-- ===== src/Graph/Cycle/Fuel.antt =====
-- src/engine/graph-validation.ts: the fuel of hasCycleFromNode, by the nodes that `visited` lacks.
use spane.Base.{
  ℕ, zero, suc, ◌<◌, String, ◌≡◌, refl, inl, inr, true, Option, none, some, List, [], ◌∷◌, has,
  Bool-cases, arith,
}
use spane.Base.Counts.{missing, Subset, missing-Subset, Subset-add, missing-add}
use spane.Types.Workflow.{NodeDefinition}
use spane.Graph.Edges.{Lookup}
use spane.Graph.Cycle.{
  Walk, Verdict, cycle, clear, out_of_fuel, and_then, scan, enter, leave, expand, visit_node,
  has_cycle_from_node,
}

-- the run ended, and what it had visited stays visited
abbrev pub Ends : Walk → Verdict → Type 0
Ends w (cycle w') = Unit
Ends w (clear w') = Subset w.visited w'.visited
Ends w out_of_fuel = ⊥

module _ (ids : List String) where
  abbrev left : Walk → ℕ
  left w = missing ids w.visited

  abbrev EndsBelow : ℕ → (String → Walk → Verdict) → Type 0
  EndsBelow k visit = (id : String) (w : Walk) → left w < k → Ends w (visit id w)

  module _ (visit : String → Walk → Verdict) (k : ℕ) (ends : EndsBelow k visit) where
    scan-next-Ends :
        (cs : List String) (w : Walk) (v : Verdict)
        → Ends w v
        → ((w' : Walk) → Subset w.visited w'.visited → Ends w' (scan visit cs w'))
        → Ends w (and_then v (scan visit cs))
    scan-next-Ends cs w (cycle w') e rest = tt
    scan-next-Ends cs w out_of_fuel e rest = absurd e
    scan-next-Ends cs w (clear w') e rest = widen (scan visit cs w') (rest w' e)
      where
        widen : (v : Verdict) → Ends w' v → Ends w v
        widen (cycle w'') p = tt
        widen out_of_fuel p = absurd p
        widen (clear w'') p = λ u h. p u (e u h)

    scan-Ends : (cs : List String) (w : Walk) → left w < k → Ends w (scan visit cs w)
    unfolding scan
    scan-Ends [] w h = λ u m. m
    scan-Ends (c ∷ cs) w h =
        scan-next-Ends cs w (visit c w) (ends c w h) (λ w' grows.
          scan-Ends cs w' (omega (arith, missing-Subset ids w.visited w'.visited grows)))

    leave-Ends :
        (id : String) (w : Walk) (v : Verdict)
        → Ends (enter id w) v
        → Ends w (and_then v (λ w'. clear (leave id w')))
    leave-Ends id w (cycle w') e = tt
    leave-Ends id w out_of_fuel e = absurd e
    leave-Ends id w (clear w') e = λ u h. e u (Subset-add w.visited id u h)

    expand-Ends :
        (id : String) (found : Option NodeDefinition) (w : Walk)
        → ((n : NodeDefinition) → found ≡ some n → left (enter id w) < k)
        → Ends w (expand visit id found (enter id w))
    unfolding expand
    expand-Ends id none w h = Subset-add w.visited id
    expand-Ends id (some n) w h =
        leave-Ends id w (scan visit n.outputs (enter id w))
          (scan-Ends n.outputs (enter id w) (h n refl))

  module _ (look : Lookup)
      (known : (u : String) (n : NodeDefinition) → look u ≡ some n → has ids u ≡ true) where
    pub has_cycle_from_node-Ends :
        (fuel : ℕ) (id : String) (w : Walk)
        → left w < fuel
        → Ends w (has_cycle_from_node look fuel id w)
    unfolding has_cycle_from_node visit_node
    has_cycle_from_node-Ends zero id w h = absurd (omega arith)
    has_cycle_from_node-Ends (suc fuel) id w h = elim (Bool-cases (has w.stack id)) [
      | inl on_stack ↦ rw on_stack tt
      | inr absent ↦ elim (Bool-cases (has w.visited id)) [
        | inl old ↦ rw (absent, old) (λ u m. m)
        | inr new ↦
            rw (absent, new)
              (expand-Ends (has_cycle_from_node look fuel) fuel (has_cycle_from_node-Ends fuel) id
                (look id) w (λ n e. omega (arith, missing-add ids w.visited id new (known id n e))))
      ]
    ]
