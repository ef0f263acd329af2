-- ===== src/Graph/Cycle/Trail.antt =====
-- src/engine/graph-validation.ts: the recursion stack of hasCycleFromNode is a walk.
use spane.Base.{
  ℕ, zero, suc, String, ◌≡◌, refl, sym, subst, inl, inr, true, false, Option, none, some, List, [],
  ◌∷◌, ◌++◌, has, add, Bool-cases, arith, eq_iff,
}
use spane.Types.Workflow.{NodeDefinition}
use spane.Graph.Edges.{Lookup, Edge}
use spane.Graph.Cycle.{
  Walk, Verdict, cycle, clear, out_of_fuel, and_then, scan, enter, leave, expand, visit_node,
  has_cycle_from_node,
}
use spane.Graph.Cycle.Stack.{Keeps, KeepsAll, has_cycle_from_node-Keeps}

add-absent : (us : List String) (id : String) → has us id ≡ false → add us id ≡ us ++ id ∷ []
unfolding add
add-absent us id absent = rw absent refl

module _ (look : Lookup) where
  -- each node of the list has the next one among its outputs
  abbrev pub IsWalk : List String → Type 0
  IsWalk [] = Unit
  IsWalk (u ∷ []) = Unit
  IsWalk (u ∷ v ∷ vs) = Edge look u v × IsWalk (v ∷ vs)

  -- a walk whose last node has one of its nodes among its outputs
  abbrev pub IsClosed : List String → Type 0
  IsClosed us = (back : String) × IsWalk (us ++ back ∷ []) × (has us back ≡ true)

  IsWalk-snoc :
      (us : List String) (u v : String)
      → IsWalk (us ++ u ∷ [])
      → Edge look u v
      → IsWalk ((us ++ u ∷ []) ++ v ∷ [])
  IsWalk-snoc [] u v h e = (e, tt)
  IsWalk-snoc (x ∷ []) u v h e = (h.0, (e, tt))
  IsWalk-snoc (x ∷ y ∷ us) u v h e = (h.0, IsWalk-snoc (y ∷ us) u v h.1 e)

  abbrev pub Closes : Verdict → Type 0
  Closes (cycle w) = IsClosed w.stack
  Closes (clear w) = Unit
  Closes out_of_fuel = Unit

  abbrev ClosesAll : (String → Walk → Verdict) → Type 0
  ClosesAll visit = (id : String) (w : Walk) → IsWalk (w.stack ++ id ∷ []) → Closes (visit id w)

  and_then-Closes :
      (us : List String) (v : Verdict) (k : Walk → Verdict)
      → Keeps us v
      → Closes v
      → ((w : Walk) → w.stack ≡ us → Closes (k w))
      → Closes (and_then v k)
  and_then-Closes us (cycle w) k e q r = q
  and_then-Closes us (clear w) k e q r = r w e
  and_then-Closes us out_of_fuel k e q r = tt

  module _ (visit : String → Walk → Verdict) (keeps : KeepsAll visit)
      (closes : ClosesAll visit) where
    scan-Closes :
        (cs : List String) (w : Walk)
        → ((c : String) → has cs c ≡ true → IsWalk (w.stack ++ c ∷ []))
        → Closes (scan visit cs w)
    unfolding scan has
    scan-Closes [] w h = tt
    scan-Closes (c ∷ cs) w h =
        and_then-Closes w.stack (visit c w) (scan visit cs) (keeps c w)
          (closes c w (h c (ground (arith, eq_iff c c))))
          (λ w' k.
            scan-Closes cs w'
              (λ d m. subst (λ s. IsWalk (s ++ d ∷ [])) (sym k) (h d (ground arith))))

    expand-Closes :
        (id : String) (w : Walk)
        → has w.stack id ≡ false
        → IsWalk (w.stack ++ id ∷ [])
        → Closes (expand visit id (look id) (enter id w))
    unfolding expand
    expand-Closes id w absent h = found (look id) refl
      where
        entered : add w.stack id ≡ w.stack ++ id ∷ []
        entered = add-absent w.stack id absent

        left : (v : Verdict) → Closes v → Closes (and_then v (λ w'. clear (leave id w')))
        left (cycle w') q = q
        left (clear w') q = tt
        left out_of_fuel q = tt

        found : (o : Option NodeDefinition) → look id ≡ o → Closes (expand visit id o (enter id w))
        found none e = tt
        found (some n) e = left _ (
            scan-Closes n.outputs (enter id w) (λ c m.
              subst (λ s. IsWalk (s ++ c ∷ [])) (sym entered)
                (IsWalk-snoc w.stack id c h (record { node = n; found = e; listed = m }))))

  -- A cycle is reported with a stack that is a walk, and whose last node leads back into it.
  pub has_cycle_from_node-Closes : (fuel : ℕ) → ClosesAll (has_cycle_from_node look fuel)
  unfolding has_cycle_from_node visit_node
  has_cycle_from_node-Closes zero id w h = tt
  has_cycle_from_node-Closes (suc fuel) id w h = elim (Bool-cases (has w.stack id)) [
    | inl on_stack ↦ rw on_stack (id, h, on_stack)
    | inr absent ↦ elim (Bool-cases (has w.visited id)) [
      | inl old ↦ rw (absent, old) tt
      | inr new ↦
          rw (absent, new)
            (expand-Closes (has_cycle_from_node look fuel) (has_cycle_from_node-Keeps look fuel)
              (has_cycle_from_node-Closes fuel) id w absent h)
    ]
  ]
