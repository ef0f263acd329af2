-- ===== src/Graph/Cycle/Search.antt =====
-- src/engine/graph-validation.ts: one run of the search of hasCycleFromNode.
use spane.Base.{
  ℕ, zero, suc, String, ◌≡◌, refl, ◌∙◌, subst, ◌⊎◌, inl, inr, ⊎_elim, true, false, Option, none,
  some, List, [], ◌∷◌, has, add, delete, has-add, has-cons, delete-add, Bool-cases, arith, ◌==◌,
  eq_iff, eq_cases,
}
use spane.Types.Workflow.{NodeDefinition}
use spane.Graph.Edges.{Lookup, Edge, Reach, here, step, Leads, OnCycle, Safe, safe, Reach-trans}
use spane.Graph.Cycle.{
  Walk, Verdict, cycle, clear, out_of_fuel, and_then, scan, enter, leave, expand, visit_node,
  has_cycle_from_node,
}

module _ (look : Lookup) where
  -- Every node that was visited and left is safe.
  pub record Inv (w : Walk) : Type 0 where
    pub stacked : (u : String) → has w.stack u ≡ true → has w.visited u ≡ true
    pub settled : (u : String) → has w.visited u ≡ true → has w.stack u ≡ false → Safe look u

  -- what is known when a node is entered from the stack
  pub record Ready (id : String) (w : Walk) : Type 0 where
    pub inv : Inv w
    pub chain : (u : String) → has w.stack u ≡ true → Leads look u id

  pub record Cleared (id : String) (w w' : Walk) : Type 0 where
    pub inv : Inv w'
    pub stack : w'.stack ≡ w.stack
    pub is_safe : Safe look id

  pub record Found (id : String) : Type 0 where
    pub node : String
    pub walk : Reach look id node
    pub on_cycle : OnCycle look node

  abbrev pub Outcome : String → Walk → Verdict → Type 0
  Outcome id w (cycle w') = Found id
  Outcome id w (clear w') = Cleared id w w'
  Outcome id w out_of_fuel = Unit

  -- the loop over the outputs of `id`, with `id` on the stack
  record Scanning (id : String) (w : Walk) : Type 0 where
    inv : Inv w
    chain : (u : String) → has w.stack u ≡ true → Reach look u id

  record Scanned (cs : List String) (w w' : Walk) : Type 0 where
    inv : Inv w'
    stack : w'.stack ≡ w.stack
    all_safe : (c : String) → has cs c ≡ true → Safe look c

  abbrev ScanOutcome : String → List String → Walk → Verdict → Type 0
  ScanOutcome id cs w (cycle w') = Found id
  ScanOutcome id cs w (clear w') = Scanned cs w w'
  ScanOutcome id cs w out_of_fuel = Unit

  abbrev Searches : (String → Walk → Verdict) → Type 0
  Searches visit = (id : String) (w : Walk) → Ready id w → Outcome id w (visit id w)

  module _ (visit : String → Walk → Verdict) (searches : Searches visit) where
    scan-next :
        (id c : String) (cs : List String) (w : Walk) (v : Verdict)
        → Edge look id c
        → Scanning id w
        → Outcome c w v
        → ((w' : Walk) → Scanning id w' → ScanOutcome id cs w' (scan visit cs w'))
        → ScanOutcome id (c ∷ cs) w (and_then v (scan visit cs))
    scan-next id c cs w (cycle w') e r o rest = record {
      node = o.node;
      walk = Reach-trans look (step here e) o.walk;
      on_cycle = o.on_cycle;
    }
    scan-next id c cs w out_of_fuel e r o rest = tt
    scan-next id c cs w (clear w') e r o rest = widen (scan visit cs w') (
        rest w' (record {
          inv = o.inv;
          chain = λ u h. r.chain u (subst (λ s. has s u ≡ true) o.stack h);
        }))
      where
        widen : (v : Verdict) → ScanOutcome id cs w' v → ScanOutcome id (c ∷ cs) w v
        widen (cycle w'') p = p
        widen out_of_fuel p = tt
        widen (clear w'') p = record {
          inv = p.inv;
          stack = p.stack ∙ o.stack;
          all_safe = λ u h.
              ⊎_elim (λ same. subst (Safe look) same o.is_safe) (p.all_safe u) (has-cons c cs u h);
        }

    scan_lem :
        (id : String) (cs : List String) (w : Walk)
        → ((c : String) → has cs c ≡ true → Edge look id c)
        → Scanning id w
        → ScanOutcome id cs w (scan visit cs w)
    unfolding scan has
    scan_lem id [] w edges r = record { inv = r.inv; stack = refl; all_safe = λ c h. cc }
    scan_lem id (c ∷ cs) w edges r =
        scan-next id c cs w (visit c w) (edges c (ground (arith, eq_iff c c))) r
          (searches c w (record {
            inv = r.inv;
            chain = λ u h. record {
              last = id;
              walk = r.chain u h;
              back = edges c (ground (arith, eq_iff c c));
            };
          }))
          (λ w' r'. scan_lem id cs w' (λ d h. edges d (ground arith)) r')

  enter-Scanning : (id : String) (w : Walk) → Ready id w → Scanning id (enter id w)
  enter-Scanning id w r = record {
    inv = record {
      stacked =
          λ u h. ground (arith, has-add w.stack id u, has-add w.visited id u, r.inv.stacked u);
      settled = λ u h k.
          r.inv.settled u (ground (arith, has-add w.stack id u, has-add w.visited id u))
            (ground (arith, has-add w.stack id u));
    };
    chain = λ u h.
        ⊎_elim (λ old. let l = r.chain u old in step l.walk l.back)
          (λ same. subst (λ v. Reach look v id) same here) (entered u h);
  }
    where
      entered : (u : String) → has (add w.stack id) u ≡ true → (has w.stack u ≡ true) ⊎ (id ≡ u)
      entered u h = ground (arith, has-add w.stack id u, eq_iff id u)

  leave-Cleared :
      (id : String) (w w' : Walk)
      → Ready id w
      → has w.stack id ≡ false
      → Inv w'
      → w'.stack ≡ add w.stack id
      → Safe look id
      → Cleared id w (leave id w')
  leave-Cleared id w w' r absent i same s = record {
    inv = record {
      stacked = λ u h. i.stacked u (still_there u h);
      settled = λ u h k.
          ⊎_elim (λ e. subst (Safe look) e s) (λ other. i.settled u h (still_absent u k other))
            (eq_cases id u);
    };
    stack = back;
    is_safe = s;
  }
    where
      back : delete w'.stack id ≡ w.stack
      back = rw same (delete-add w.stack id absent)

      still_there : (u : String) → has (delete w'.stack id) u ≡ true → has w'.stack u ≡ true
      still_there u h =
          let old : has w.stack u ≡ true = rw back at h in rw same (rw has-add (rw old))

      still_absent :
          (u : String)
          → has (delete w'.stack id) u ≡ false
          → (id == u) ≡ false
          → has w'.stack u ≡ false
      still_absent u k other =
          let old : has w.stack u ≡ false = rw back at k in rw same (rw has-add (rw (old, other)))

  module _ (visit : String → Walk → Verdict) (searches : Searches visit) where
    expand-Outcome :
        (id : String) (w : Walk) (found : Option NodeDefinition)
        → look id ≡ found
        → Ready id w
        → has w.stack id ≡ false
        → Outcome id w (expand visit id found (enter id w))
    unfolding expand
    expand-Outcome id w none e r absent =
        let s = enter-Scanning id w r in
        leave-Cleared id w (enter id w) r absent s.inv refl (safe (λ v edge. cc (edge.found, e)))
    expand-Outcome id w (some node) e r absent = finish (scan visit node.outputs (enter id w)) (
        scan_lem visit searches id node.outputs (enter id w)
          (λ c h. record { node = node; found = e; listed = h }) (enter-Scanning id w r))
      where
        edge_listed : (v : String) → Edge look id v → has node.outputs v ≡ true
        edge_listed v edge = ground (arith, edge.found, edge.listed)

        finish :
            (v : Verdict)
            → ScanOutcome id node.outputs (enter id w) v
            → Outcome id w (and_then v (λ w'. clear (leave id w')))
        finish (cycle w') p = p
        finish out_of_fuel p = tt
        finish (clear w') p =
            leave-Cleared id w w' r absent p.inv p.stack
              (safe (λ v edge. p.all_safe v (edge_listed v edge)))

    visit_node-Outcome :
        (id : String) (w : Walk) → Ready id w → Outcome id w (visit_node look visit id w)
    unfolding visit_node
    visit_node-Outcome id w r = elim (Bool-cases (has w.stack id)) [
      | inl on_stack ↦
          rw on_stack (record { node = id; walk = here; on_cycle = r.chain id on_stack })
      | inr absent ↦ elim (Bool-cases (has w.visited id)) [
        | inl old ↦
            rw (absent, old)
              (record { inv = r.inv; stack = refl; is_safe = r.inv.settled id old absent })
        | inr new ↦ rw (absent, new) (expand-Outcome id w (look id) refl r absent)
      ]
    ]

  -- Every verdict of the search is right, whatever the fuel.
  pub has_cycle_from_node-Outcome :
      (fuel : ℕ) (id : String) (w : Walk)
      → Ready id w
      → Outcome id w (has_cycle_from_node look fuel id w)
  unfolding has_cycle_from_node
  has_cycle_from_node-Outcome zero id w r = tt
  has_cycle_from_node-Outcome (suc fuel) id w r =
      visit_node-Outcome (has_cycle_from_node look fuel) (has_cycle_from_node-Outcome fuel) id w r
