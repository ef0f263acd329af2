-- ===== src/Graph/References/Exact.antt =====
-- src/engine/graph-validation.ts: findMissingReferences and findDuplicateNodeIds against the lists of
-- nodes.
use mathlib.Core.List.{Memᴰ}
use mathlib.Core.List.Memᴰ
use spane.Base.{
  ℕ, suc, ◌≤◌, String, ◌≡◌, refl, ◌↔◌, ◌⊎◌, inl, inr, ⊎_elim, true, false, List, [], ◌∷◌, map, has,
  has-add, add, arith, ◌==◌, eq_iff, if◌then◌else◌,
}
use spane.Types.Workflow.{NodeDefinition, WorkflowDefinition}
use spane.Graph.References.{
  collect, collect_nodes, find_missing_references, duplicates_from, find_duplicate_node_ids,
}

-- a node of the list names `u` among its inputs or outputs
pub record Mentions (ns : List NodeDefinition) (u : String) : Type 0 where
  pub node : NodeDefinition
  pub among : Memᴰ node ns
  pub named : (has node.inputs u ≡ true) ⊎ (has node.outputs u ≡ true)

collect_lem :
    (ids xs acc : List String) (u : String)
    → (has (collect ids xs acc) u ≡ true)
      ↔ ((has acc u ≡ true) ⊎ (has xs u ≡ true) × (has ids u ≡ false))
unfolding collect has
collect_lem ids [] acc u = ground arith
collect_lem ids (x ∷ xs) acc u =
    ground (
      arith,
      collect_lem ids xs acc u,
      collect_lem ids xs (add acc x) u,
      has-add acc x u,
      eq_iff x u,
    )

Mentions-cons :
    {n : NodeDefinition} {ns : List NodeDefinition} {u : String}
    → Mentions ns u
    → Mentions (n ∷ ns) u
Mentions-cons m = record { node = m.node; among = Memᴰ.tail m.among; named = m.named }

Mentions-cases :
    (n : NodeDefinition) (ns : List NodeDefinition) (u : String)
    → Mentions (n ∷ ns) u
    → ((has n.inputs u ≡ true) ⊎ (has n.outputs u ≡ true)) ⊎ Mentions ns u
Mentions-cases n ns u m =
    ⊎_elim (λ same. inl (rw (← same) m.named))
      (λ later. inr (record { node = m.node; among = later; named = m.named }))
      (Memᴰ.cases_cons m.among)

collect_nodes_sound :
    (ids : List String) (ns : List NodeDefinition) (acc : List String) (u : String)
    → has (collect_nodes ids ns acc) u ≡ true
    → (has acc u ≡ true) ⊎ Mentions ns u × (has ids u ≡ false)
unfolding collect_nodes
collect_nodes_sound ids [] acc u h = inl h
collect_nodes_sound ids (n ∷ ns) acc u h =
    ⊎_elim
      (λ first.
        ⊎_elim
          (λ ins.
            ⊎_elim inl (λ (m, k). inr (here (inl m), k)) ((collect_lem ids n.inputs acc u).0 ins))
          (λ (m, k). inr (here (inr m), k))
          ((collect_lem ids n.outputs (collect ids n.inputs acc) u).0 first))
      (λ (m, k). inr (Mentions-cons m, k))
      (collect_nodes_sound ids ns (collect ids n.outputs (collect ids n.inputs acc)) u h)
  where
    here : (has n.inputs u ≡ true) ⊎ (has n.outputs u ≡ true) → Mentions (n ∷ ns) u
    here named = record { node = n; among = Memᴰ.head refl; named = named }

collect_nodes_complete :
    (ids : List String) (ns : List NodeDefinition) (acc : List String) (u : String)
    → (has acc u ≡ true) ⊎ Mentions ns u × (has ids u ≡ false)
    → has (collect_nodes ids ns acc) u ≡ true
unfolding collect_nodes
collect_nodes_complete ids [] acc u h = ⊎_elim (λ m. m) (λ (m, k). absurd (Memᴰ.not-nil m.among)) h
collect_nodes_complete ids (n ∷ ns) acc u h =
    collect_nodes_complete ids ns (collect ids n.outputs (collect ids n.inputs acc)) u
      (⊎_elim (λ old. inl (kept (inl old))) (λ (m, k). next k (Mentions-cases n ns u m)) h)
  where
    kept :
        (has acc u ≡ true)
          ⊎ ((has n.inputs u ≡ true) ⊎ (has n.outputs u ≡ true)) × (has ids u ≡ false)
        → has (collect ids n.outputs (collect ids n.inputs acc)) u ≡ true
    kept h = ground (
      arith,
      collect_lem ids n.inputs acc u,
      collect_lem ids n.outputs (collect ids n.inputs acc) u,
    )

    next :
        has ids u ≡ false
        → ((has n.inputs u ≡ true) ⊎ (has n.outputs u ≡ true)) ⊎ Mentions ns u
        → (has (collect ids n.outputs (collect ids n.inputs acc)) u ≡ true)
          ⊎ Mentions ns u × (has ids u ≡ false)
    next k (inl named) = inl (kept (inr (named, k)))
    next k (inr m) = inr (m, k)

-- findMissingReferences lists an id exactly if some node names it among its inputs or outputs and no
-- node has it.
pub find_missing_references_iff :
    (workflow : WorkflowDefinition) (u : String)
    → (has (find_missing_references workflow) u ≡ true)
      ↔ (Mentions workflow.nodes u × (has (map (λ n. n.id) workflow.nodes) u ≡ false))
unfolding find_missing_references has
find_missing_references_iff workflow u = (
  λ h.
      ⊎_elim (λ f. cc) (λ m. m)
        (collect_nodes_sound (map (λ n. n.id) workflow.nodes) workflow.nodes [] u h),
  λ m. collect_nodes_complete (map (λ n. n.id) workflow.nodes) workflow.nodes [] u (inr m),
)

-- how many nodes of the list have the id
abbrev pub occurrences : List NodeDefinition → String → ℕ
occurrences [] u = 0
occurrences (n ∷ ns) u = if n.id == u then suc (occurrences ns u) else occurrences ns u

duplicates_from_lem :
    (ns : List NodeDefinition) (seen dups : List String) (u : String)
    → (has (duplicates_from ns seen dups) u ≡ true) ↔ (
        (has dups u ≡ true)
        ⊎ ((has seen u ≡ true) × (1 ≤ occurrences ns u))
        ⊎ (2 ≤ occurrences ns u))
unfolding duplicates_from
duplicates_from_lem [] seen dups u = ground arith
duplicates_from_lem (n ∷ ns) seen dups u = ground (
  arith,
  duplicates_from_lem ns seen (add dups n.id) u,
  duplicates_from_lem ns (add seen n.id) dups u,
  has-add dups n.id u,
  has-add seen n.id u,
  eq_iff n.id u,
)

-- findDuplicateNodeIds lists an id exactly if two nodes or more have it.
pub find_duplicate_node_ids_iff :
    (workflow : WorkflowDefinition) (u : String)
    → (has (find_duplicate_node_ids workflow) u ≡ true) ↔ (2 ≤ occurrences workflow.nodes u)
unfolding find_duplicate_node_ids has
find_duplicate_node_ids_iff workflow u = ground (arith, duplicates_from_lem workflow.nodes [] [] u)
