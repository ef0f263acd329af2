-- ===== src/Graph/Reachable/Queue.antt =====
-- src/engine/graph-validation.ts: the loop of findUnreachableNodes, over its queue.
use mathlib.Core.Logic.{∥∥₁_elim}
use mathlib.Core.Bool.{So-prop}
use spane.Base.{
  ℕ, zero, suc, ◌+◌, ◌≤◌, String, ◌≡◌, refl, sym, subst, ◌↔◌, ◌⊎◌, inl, inr, ⊎_elim, true, false,
  Option, none, some, List, [], ◌∷◌, ◌++◌, has, has-append, has-add, add, length, length-append,
  Bool-cases, arith, ◌==◌, eq_iff,
}
use spane.Base.Counts.{Subset, Subset-add}
use spane.Types.Workflow.{NodeDefinition, find_node}
use spane.Graph.Edges.{Lookup, Edge, Reach, here, step}
use spane.Graph.Reachable.{outputs_of, search_from, outgoing, rounds, reachable_from}

outgoing-Subset :
    (ns : List NodeDefinition) (r r' : List String) → Subset r r' → outgoing ns r' ≤ outgoing ns r
unfolding outgoing
outgoing-Subset [] r r' h = omega arith
outgoing-Subset (n ∷ ns) r r' h = ground (arith, outgoing-Subset ns r r' h, h n.id)

-- Reaching a node frees its outputs.
outgoing-add :
    (ns : List NodeDefinition) (r : List String) (id : String)
    → has r id ≡ false
    → length (outputs_of (find_node ns id)) + outgoing ns (add r id) ≤ outgoing ns r
unfolding outgoing outputs_of find_node
outgoing-add [] r id h = omega arith
outgoing-add (n ∷ ns) r id h = elim (Bool-cases (n.id == id)) [
  | inl e ↦ ground (
    arith,
    eq_iff n.id id,
    has-add r id n.id,
    eq_iff id n.id,
    outgoing-Subset ns r (add r id) (Subset-add r id),
  )
  | inr e ↦
      ground (arith, has-add r id n.id, eq_iff id n.id, eq_iff n.id id, outgoing-add ns r id h)
]

module _ (nodes : List NodeDefinition) (entry : String) where
  abbrev pub look : Lookup
  look = find_node nodes

  Edge-of : {u v : String} → has (outputs_of (find_node nodes u)) v ≡ true → Edge look u v
  unfolding outputs_of has
  Edge-of {u} {v} h = go (find_node nodes u) refl h
    where
      go :
          (o : Option NodeDefinition)
          → find_node nodes u ≡ o
          → has (outputs_of o) v ≡ true
          → Edge look u v
      go none e m = cc
      go (some n) e m = record { node = n; found = e; listed = m }

  listed_of : {u v : String} → Edge look u v → has (outputs_of (find_node nodes u)) v ≡ true
  unfolding outputs_of
  listed_of e = rw e.found e.listed

  record Inv (queue reachable : List String) : Type 0 where
    queued : (u : String) → has queue u ≡ true → Reach look entry u
    sound : (u : String) → has reachable u ≡ true → Reach look entry u
    closed :
        (u v : String)
        → has reachable u ≡ true
        → Edge look u v
        → (has reachable v ≡ true) ⊎ (has queue v ≡ true)
    source : (has reachable entry ≡ true) ⊎ (has queue entry ≡ true)

  Inv-skip :
      (id : String) (queue reachable : List String)
      → has reachable id ≡ true
      → Inv (id ∷ queue) reachable
      → Inv queue reachable
  unfolding has
  Inv-skip id queue reachable seen i = record {
    queued = λ u h. i.queued u (ground arith);
    sound = i.sound;
    closed = λ u v h e. ground (arith, i.closed u v h e, eq_iff id v);
    source = ground (arith, i.source, eq_iff id entry);
  }

  Inv-visit :
      (id : String) (queue reachable : List String)
      → Inv (id ∷ queue) reachable
      → Inv (queue ++ outputs_of (find_node nodes id)) (add reachable id)
  unfolding has
  Inv-visit id queue reachable i = record {
    queued = λ u h.
        ⊎_elim (λ old. i.queued u (ground arith)) (λ new. step to_id (Edge-of new)) (split u h);
    sound = λ u h. ⊎_elim (i.sound u) (λ same. subst (Reach look entry) same to_id) (added u h);
    closed = λ u v h e.
        ⊎_elim (λ old. moved v (i.closed u v old e))
          (λ same. inr (
            joined v (
              subst (λ x. has (outputs_of (find_node nodes x)) v ≡ true) (sym same) (listed_of e))))
          (added u h);
    source = moved entry i.source;
  }
    where
      to_id : Reach look entry id
      to_id = i.queued id (ground (arith, eq_iff id id))

      split :
          (u : String)
          → has (queue ++ outputs_of (find_node nodes id)) u ≡ true
          → (has queue u ≡ true) ⊎ (has (outputs_of (find_node nodes id)) u ≡ true)
      split u h = ground (arith, has-append queue (outputs_of (find_node nodes id)) u)

      added : (u : String) → has (add reachable id) u ≡ true → (has reachable u ≡ true) ⊎ (id ≡ u)
      added u h = ground (arith, has-add reachable id u, eq_iff id u)

      joined :
          (v : String)
          → has (outputs_of (find_node nodes id)) v ≡ true
          → has (queue ++ outputs_of (find_node nodes id)) v ≡ true
      joined v h = ground (arith, has-append queue (outputs_of (find_node nodes id)) v)

      moved :
          (v : String)
          → (has reachable v ≡ true) ⊎ (has (id ∷ queue) v ≡ true)
          → (has (add reachable id) v ≡ true)
            ⊎ (has (queue ++ outputs_of (find_node nodes id)) v ≡ true)
      moved v h =
          ground
            (arith, has-add reachable id v, has-append queue (outputs_of (find_node nodes id)) v)

  abbrev work : List String → List String → ℕ
  work queue reachable = length queue + outgoing nodes reachable

  record Done (reachable : List String) : Type 0 where
    sound : (u : String) → has reachable u ≡ true → Reach look entry u
    closed : (u v : String) → has reachable u ≡ true → Edge look u v → has reachable v ≡ true
    source : has reachable entry ≡ true

  Inv-Done : (reachable : List String) → Inv [] reachable → Done reachable
  unfolding has
  Inv-Done reachable i = record {
    sound = i.sound;
    closed = λ u v h e. ⊎_elim (λ m. m) (λ f. cc) (i.closed u v h e);
    source = ⊎_elim (λ m. m) (λ f. cc) i.source;
  }

  search_from-Done :
      (fuel : ℕ) (queue reachable : List String)
      → work queue reachable ≤ fuel
      → Inv queue reachable
      → Done (search_from nodes fuel queue reachable)
  unfolding search_from
  search_from-Done zero [] reachable w i = Inv-Done reachable i
  search_from-Done zero (id ∷ queue) reachable w i = absurd (omega arith)
  search_from-Done (suc fuel) [] reachable w i = Inv-Done reachable i
  search_from-Done (suc fuel) (id ∷ queue) reachable w i = elim (Bool-cases (has reachable id)) [
    | inl seen ↦
        rw (seen, search_from)
          (search_from-Done fuel queue reachable (omega arith) (Inv-skip id queue reachable seen i))
    | inr new ↦
        rw (new, search_from)
          (search_from-Done fuel (queue ++ outputs_of (find_node nodes id)) (add reachable id)
            (omega (
              arith,
              length-append queue (outputs_of (find_node nodes id)),
              outgoing-add nodes reachable id new,
            ))
            (Inv-visit id queue reachable i))
  ]

  reachable_from-Done : Done (reachable_from nodes entry)
  unfolding reachable_from has
  reachable_from-Done = search_from-Done (rounds nodes) (entry ∷ []) [] (omega arith) (record {
    queued = λ u h. subst (Reach look entry) ((eq_iff entry u).0 (ground arith)) here;
    sound = λ u h. cc;
    closed = λ u v h e. cc;
    source = inr (ground (arith, eq_iff entry entry));
  })

  -- The search marks a node exactly if a walk leads to it.
  pub reachable_from_iff :
      (u : String) → (has (reachable_from nodes entry) u ≡ true) ↔ ∥ Reach look entry u ∥₁
  reachable_from_iff u =
      (λ h. ∣ reachable_from-Done.sound u h ∣₁, λ r. ∥∥₁_elim r (So-prop _) complete)
    where
      complete : {v : String} → Reach look entry v → has (reachable_from nodes entry) v ≡ true
      complete here = reachable_from-Done.source
      complete (step r e) = reachable_from-Done.closed _ _ (complete r) e
