-- ===== src/Graph/Cycle/Severity.antt =====
-- src/engine/graph-validation.ts: the severity of the error of detectCycle.
use spane.Base.{ℕ, String, ◌≡◌, Option, some, List, [], ◌∷◌, arith}
use spane.Types.Workflow.{NodeDefinition, WorkflowDefinition}
use spane.Graph.Edges.{Lookup}
use spane.Graph.Errors.{ValidationError, error}
use spane.Graph.Cycle.{
  Verdict, cycle, clear, out_of_fuel, has_cycle_from_node, fresh, report, detect_from, detect_cycle,
}

report-error :
    (id : String) (v : Verdict) (rest : Option ValidationError) (e : ValidationError)
    → ((e' : ValidationError) → rest ≡ some e' → e'.severity ≡ error)
    → report id v rest ≡ some e
    → e.severity ≡ error
unfolding report
report-error id (cycle w) rest e r h = ground arith
report-error id (clear w) rest e r h = r e h
report-error id out_of_fuel rest e r h = r e h

detect_from-error :
    (look : Lookup) (fuel : ℕ) (ns : List NodeDefinition) (e : ValidationError)
    → detect_from look fuel ns ≡ some e
    → e.severity ≡ error
unfolding detect_from
detect_from-error look fuel [] e h = cc
detect_from-error look fuel (n ∷ ns) e h =
    report-error n.id (has_cycle_from_node look fuel n.id fresh) (detect_from look fuel ns) e
      (detect_from-error look fuel ns) h

pub detect_cycle-error :
    (workflow : WorkflowDefinition) (e : ValidationError)
    → detect_cycle workflow ≡ some e
    → e.severity ≡ error
unfolding detect_cycle
detect_cycle-error workflow e h = detect_from-error _ _ workflow.nodes e h
