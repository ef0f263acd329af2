-- ===== src/Graph/Cycle/Reported.antt =====
-- src/engine/graph-validation.ts: the path that detectCycle reports.
use spane.Base.{String, ◌≡◌, true, List, ◌∷◌, has}
use spane.Graph.Edges.{Lookup}
use spane.Graph.Errors.{ValidationError}
use spane.Graph.Cycle.{cycle_error}
use spane.Graph.Cycle.Trail.{IsClosed}

record Reported (look : Lookup) (us : List String) (e : ValidationError) : Type 0 where
  start : String
  rest : List String
  known : has us start ≡ true
  path : e ≡ cycle_error (start ∷ start ∷ rest)
  closed : IsClosed look (start ∷ rest)
