-- ===== src/Graph/Cycle/Stack.antt =====
-- src/engine/graph-validation.ts: what hasCycleFromNode leaves on the recursion stack.
use spane.Base.{
  ℕ, zero, suc, String, ◌≡◌, refl, ◌∙◌, sym, subst, inl, inr, false, Option, none, some, List, [],
  ◌∷◌, ◌++◌, append_assoc, append-nil, has, add, delete-add, Bool-cases,
}
use spane.Types.Workflow.{NodeDefinition}
use spane.Graph.Edges.{Lookup}
use spane.Graph.Cycle.{
  Walk, Verdict, cycle, clear, out_of_fuel, and_then, scan, enter, leave, expand, visit_node,
  has_cycle_from_node, fresh,
}

-- A verdict `cycle` leaves what was on the stack at its bottom, `clear` leaves the stack as it was.
abbrev pub Keeps : List String → Verdict → Type 0
Keeps s (cycle w') = (rest : List String) × (w'.stack ≡ s ++ rest)
Keeps s (clear w') = w'.stack ≡ s
Keeps s out_of_fuel = Unit

abbrev pub KeepsAll : (String → Walk → Verdict) → Type 0
KeepsAll visit = (id : String) (w : Walk) → Keeps w.stack (visit id w)

and_then-Keeps :
    (s : List String) (v : Verdict) (k : Walk → Verdict)
    → Keeps s v
    → ((w : Walk) → w.stack ≡ s → Keeps s (k w))
    → Keeps s (and_then v k)
and_then-Keeps s (cycle w) k h rest = h
and_then-Keeps s (clear w) k h rest = rest w h
and_then-Keeps s out_of_fuel k h rest = tt

add-append :
    (s : List String) (id : String) (rest : List String)
    → has s id ≡ false
    → add s id ++ rest ≡ s ++ id ∷ rest
unfolding add
add-append s id rest h = rw (h, append_assoc)

module _ (visit : String → Walk → Verdict) (keeps : KeepsAll visit) where
  scan-Keeps : (cs : List String) (w : Walk) → Keeps w.stack (scan visit cs w)
  unfolding scan
  scan-Keeps [] w = refl
  scan-Keeps (c ∷ cs) w =
      and_then-Keeps w.stack (visit c w) (scan visit cs) (keeps c w)
        (λ w' e. subst (λ s. Keeps s (scan visit cs w')) e (scan-Keeps cs w'))

  -- a longer stack below, and the node itself once it is entered
  expand-Keeps :
      (id : String) (found : Option NodeDefinition) (w : Walk)
      → has w.stack id ≡ false
      → Keeps w.stack (expand visit id found (enter id w))
  unfolding expand
  expand-Keeps id none w h = delete-add w.stack id h
  expand-Keeps id (some n) w h =
      finish (scan visit n.outputs (enter id w)) (scan-Keeps n.outputs (enter id w))
    where
      finish :
          (v : Verdict)
          → Keeps (add w.stack id) v
          → Keeps w.stack (and_then v (λ w'. clear (leave id w')))
      finish (cycle w') (rest, e) = (id ∷ rest, e ∙ add-append w.stack id rest h)
      finish (clear w') e = rw e (delete-add w.stack id h)
      finish out_of_fuel e = tt

module _ (look : Lookup) where
  pub has_cycle_from_node-Keeps : (fuel : ℕ) → KeepsAll (has_cycle_from_node look fuel)
  unfolding has_cycle_from_node visit_node
  has_cycle_from_node-Keeps zero id w = tt
  has_cycle_from_node-Keeps (suc fuel) id w = elim (Bool-cases (has w.stack id)) [
    | inl on_stack ↦ rw on_stack ([], sym (append-nil w.stack))
    | inr absent ↦ elim (Bool-cases (has w.visited id)) [
      | inl old ↦ rw (absent, old) refl
      | inr new ↦
          rw (absent, new)
            (expand-Keeps (has_cycle_from_node look fuel) (has_cycle_from_node-Keeps fuel) id
              (look id) w absent)
    ]
  ]

  -- From an empty stack, the node that the search started from is at the bottom of the stack.
  abbrev pub Starts : String → Verdict → Type 0
  Starts id (cycle w') = (rest : List String) × (w'.stack ≡ id ∷ rest)
  Starts id (clear w') = Unit
  Starts id out_of_fuel = Unit

  scan-Starts :
      (id : String) (v : Verdict)
      → Keeps (id ∷ []) v
      → Starts id (and_then v (λ w'. clear (leave id w')))
  scan-Starts id (cycle w') (rest, e) = (rest, e)
  scan-Starts id (clear w') e = tt
  scan-Starts id out_of_fuel e = tt

  expand-Starts :
      (fuel : ℕ) (id : String) (found : Option NodeDefinition)
      → Starts id (expand (has_cycle_from_node look fuel) id found (enter id fresh))
  unfolding expand add has
  expand-Starts fuel id none = tt
  expand-Starts fuel id (some n) = scan-Starts id _ (
      scan-Keeps (has_cycle_from_node look fuel) (has_cycle_from_node-Keeps fuel) n.outputs
        (enter id fresh))

  pub has_cycle_from_node-Starts :
      (fuel : ℕ) (id : String) → Starts id (has_cycle_from_node look fuel id fresh)
  unfolding has_cycle_from_node visit_node has
  has_cycle_from_node-Starts zero id = tt
  has_cycle_from_node-Starts (suc fuel) id = expand-Starts fuel id (look id)
