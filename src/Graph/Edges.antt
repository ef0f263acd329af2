-- ===== src/Graph/Edges.antt =====
-- The graph that a lookup of nodes by id gives: there is an edge from `u` to each output of the node
-- found under `u`. The program has two lookups, by a map (the last node of an id) and by `find` (the
-- first), so the relations take the lookup as a parameter.
use spane.Base.{String, ◌≡◌, true, Option, some, has}
use spane.Types.Workflow.{NodeDefinition}

abbrev pub Lookup : Type 0
Lookup = String → Option NodeDefinition

pub record Edge (look : Lookup) (u v : String) : Type 0 where
  pub node : NodeDefinition
  pub found : look u ≡ some node
  pub listed : has node.outputs v ≡ true

-- the walks from `u`, the empty one included
pub data Reach (look : Lookup) (u : String) : String → Type 0 where
  here : Reach look u u
  step : {v w : String} → Reach look u v → Edge look v w → Reach look u w

-- a walk of one edge or more
pub record Leads (look : Lookup) (u v : String) : Type 0 where
  pub last : String
  pub walk : Reach look u last
  pub back : Edge look last v

-- `u` lies on a cycle
abbrev pub OnCycle : Lookup → String → Type 0
OnCycle look u = Leads look u u

-- every walk from `u` ends: no walk from it enters a cycle
pub data Safe (look : Lookup) : String → Type 0 where
  safe : {u : String} → ((v : String) → Edge look u v → Safe look v) → Safe look u

module _ (look : Lookup) where
  Safe-next : {u v : String} → Safe look u → Edge look u v → Safe look v
  Safe-next {u} {v} (safe next) e = next v e

  Safe-Reach : {u v : String} → Safe look u → Reach look u v → Safe look v
  Safe-Reach s here = s
  Safe-Reach s (step r e) = Safe-next (Safe-Reach s r) e

  Reach-front : {u v w : String} → Edge look u v → Reach look v w → Reach look u w
  Reach-front e here = step here e
  Reach-front e (step r f) = step (Reach-front e r) f

  pub Reach-trans : {u v w : String} → Reach look u v → Reach look v w → Reach look u w
  Reach-trans p here = p
  Reach-trans p (step r e) = step (Reach-trans p r) e

  -- A walk of one edge or more, split at its first edge.
  data Front (u w : String) : Type 0 where
    front : {v : String} → Edge look u v → Reach look v w → Front u w

  Reach-Front : {u v w : String} → Reach look u v → Edge look v w → Front u w
  Reach-Front here e = front e here
  Reach-Front (step r e) f = elim (Reach-Front r e) [ front g q ↦ front g (step q f) ]

  Front-OnCycle : {u : String} → Safe look u → ¬ Front u u
  Front-OnCycle {u} (safe next) (front {v} e here) = Front-OnCycle (next v e) (front e here)
  Front-OnCycle {u} (safe next) (front {v} e (step r f)) =
      Front-OnCycle (next v e) (elim (Reach-Front r f) [ front g q ↦ front g (step q e) ])

  -- A safe id lies on no cycle.
  pub Safe-not-OnCycle : {u : String} → Safe look u → ¬ OnCycle look u
  Safe-not-OnCycle s c = Front-OnCycle s (Reach-Front c.walk c.back)

  -- From a safe id no cycle can be reached.
  pub Safe-no_cycle : {u v : String} → Safe look u → Reach look u v → ¬ OnCycle look v
  Safe-no_cycle s r = Safe-not-OnCycle (Safe-Reach s r)
