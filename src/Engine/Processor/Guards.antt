-- ===== src/Engine/Processor/Guards.antt =====
-- src/engine/node-processor.ts: the checks before a node is handled.
use spane.Base.{
  ℕ, ◌+◌, String, ◌≡◌, refl, sym, ◌∙◌, ap, subst, Bool, true, false, ◌||◌, Option, none, some, List,
  [], ◌∷◌, ◌++◌, append-nil, has, Option-cases, if_cases, inl, inr, ◌==◌, eq_refl,
}
use mathlib.Core.Option.{some-injective}
use spane.Base.Dict.{get}
use spane.Types.Workflow.{NodeDefinition, WorkflowDefinition, find_node}
use spane.Types.Execution.{ExecutionResult, ExecutionState, Status}
use spane.Memory.Executions.{get_node_results, get_execution, results_of}
use spane.Memory.Executions.View.{view, view-get_execution, get-get_node_results}
use spane.NodeUtils.Retry.{is_some_true}
use spane.Engine.World.{
  World, Call, Job, NodeJobData, job_delayed, record_call, read_results, read_execution,
}
use spane.Engine.Registry.{returned}
use spane.Engine.Processor.{
  Processed, finished, moved_to_delayed, Setup, is_processed, cancelled_result, route_by_status,
  route_node_execution, process_known_node, process_workflow_node, process_node_job,
}

-- a run that ends with `p` after the calls `calls`, with every execution as before
abbrev pub EndsWith : World → Processed → List Call → Option (Processed × World) → Type 0
EndsWith w p calls ran =
    (w' : World) × (ran ≡ some (p, w'))
    × (w'.calls ≡ w.calls ++ calls)
    × ((j : String) → view w'.store j ≡ view w.store j)

-- the execution has a result for the node that counts as processed
abbrev pub already : Option ExecutionResult → Bool
already none = false
already (some r) = r.success || is_some_true r.skipped

-- how a halted execution ends a job
abbrev pub halted : ℕ → Status → Option (Processed × List Call)
halted now Status.cancelled = some (finished (returned cancelled_result), [])
halted now Status.paused = some (moved_to_delayed, job_delayed (now + 5000) ∷ [])
halted now _ = none

module _ (setup : Setup) (job_data : NodeJobData) (job : Job) (node : NodeDefinition)
    (w : World) where
  existing :
      get (read_results job_data.execution_id (job_data.node_id ∷ []) w).0 job_data.node_id
      ≡ get (results_of (view w.store job_data.execution_id)) job_data.node_id
  unfolding has
  existing =
      get-get_node_results w.now job_data.execution_id (job_data.node_id ∷ []) w.store
        job_data.node_id
      ∙ rw eq_refl refl

  first_read :
      (j : String)
      → view (read_results job_data.execution_id (job_data.node_id ∷ []) w).1.store j
        ≡ view w.store j
  unfolding get_node_results
  first_read j = view-get_execution w.now job_data.execution_id w.store j

  route-processed :
      (e : ExecutionState) (r : ExecutionResult)
      → view w.store job_data.execution_id ≡ some e
      → get e.node_results job_data.node_id ≡ some r
      → (r.success || is_some_true r.skipped) ≡ true
      → EndsWith w (finished (returned r)) [] (route_node_execution setup job_data job node w)
  unfolding route_node_execution get_node_results
  route-processed e r known found done =
      rw
        (
          existing ∙ (ap (λ o. get (results_of o) job_data.node_id) known ∙ found),
          route_node_execution,
        )
        (if_cases (EndsWith w (finished (returned r)) []) (is_processed r) _ _
          (λ g. (_, refl, sym (append-nil w.calls), first_read)) (λ g. cc))

  by_status-halted :
      (e : ExecutionState) (v : World) (s : Status) (p : Processed) (calls : List Call)
      → e.status ≡ s
      → halted w.now s ≡ some (p, calls)
      → v.calls ≡ w.calls
      → v.now ≡ w.now
      → ((j : String) → view v.store j ≡ view w.store j)
      → EndsWith w p calls (route_by_status setup job_data job node (some e) v)
  by_status-halted e v Status.cancelled p calls same h c n views = rw same (
      subst (λ o. EndsWith w o.0 o.1 (some (finished (returned cancelled_result), v)))
        (some-injective _ _ h) (v, refl, c ∙ sym (append-nil w.calls), views))
  by_status-halted e v Status.paused p calls same h c n views = rw same (
      subst
        (λ o.
          EndsWith w o.0 o.1 (some (moved_to_delayed, record_call (job_delayed (v.now + 5000)) v)))
        (some-injective _ _ h) (_, refl, rw (c, n) refl, views))
  by_status-halted e v Status.running p calls same h c n views = cc
  by_status-halted e v Status.completed p calls same h c n views = cc
  by_status-halted e v Status.failed p calls same h c n views = cc

  route-halted :
      (e : ExecutionState) (p : Processed) (calls : List Call)
      → view w.store job_data.execution_id ≡ some e
      → already (get e.node_results job_data.node_id) ≡ false
      → halted w.now e.status ≡ some (p, calls)
      → EndsWith w p calls (route_node_execution setup job_data job node w)
  unfolding route_node_execution get_node_results get_execution view
  route-halted e p calls known fresh h =
      let v = (read_results job_data.execution_id (job_data.node_id ∷ []) w).1 in
      let u = (read_execution job_data.execution_id v).1 in
      let again = view-get_execution w.now job_data.execution_id v.store in
      let routed =
        by_status-halted e u e.status p calls refl h refl refl (λ j. again j ∙ first_read j) in
      elim (Option-cases (get e.node_results job_data.node_id)) [
        | inl a ↦
            rw
              (
                existing ∙ (ap (λ o. get (results_of o) job_data.node_id) known ∙ a),
                first_read job_data.execution_id,
                known,
                route_node_execution,
              )
              routed
        | inr (r, a) ↦
            rw
              (
                existing ∙ (ap (λ o. get (results_of o) job_data.node_id) known ∙ a),
                first_read job_data.execution_id,
                known,
                route_node_execution,
              )
              (if_cases (EndsWith w p calls) (is_processed r) _ _
                (λ g. let f = sym (ap already a) ∙ fresh in cc) (λ g. routed))
      ]

  -- a job of a node of a known workflow, behind the two reserved ids, is routed
  routed-process_node_job :
      (workflow : WorkflowDefinition)
      → (job_data.node_id == "__root__") ≡ false
      → (job_data.node_id == "__aggregator__") ≡ false
      → setup.deps.workflow_of job_data.workflow_id ≡ some workflow
      → find_node workflow.nodes job_data.node_id ≡ some node
      → process_node_job setup job_data job w ≡ route_node_execution setup job_data job node w
  unfolding process_node_job process_workflow_node process_known_node
  routed-process_node_job workflow root aggregator known found =
      rw (root, aggregator, process_node_job)
        (rw (known, process_workflow_node) (rw (found, process_known_node) refl))

-- A job of a node of a known workflow, whose id is not one of the two reserved ones, does nothing if the
-- execution has a result for the node that succeeded or was skipped, in any status of the execution: it
-- ends with that result, without a call, and every execution reads as before.
pub process_node_job-processed :
    (setup : Setup) (job_data : NodeJobData) (job : Job) (workflow : WorkflowDefinition)
    (node : NodeDefinition) (w : World) (e : ExecutionState) (r : ExecutionResult)
    → (job_data.node_id == "__root__") ≡ false
    → (job_data.node_id == "__aggregator__") ≡ false
    → setup.deps.workflow_of job_data.workflow_id ≡ some workflow
    → find_node workflow.nodes job_data.node_id ≡ some node
    → view w.store job_data.execution_id ≡ some e
    → get e.node_results job_data.node_id ≡ some r
    → (r.success || is_some_true r.skipped) ≡ true
    → EndsWith w (finished (returned r)) [] (process_node_job setup job_data job w)
process_node_job-processed setup job_data job workflow node w e r root aggregator known found exists
      has_result done =
    subst (EndsWith w (finished (returned r)) [])
      (sym (routed-process_node_job setup job_data job node w workflow root aggregator known found))
      (route-processed setup job_data job node w e r exists has_result done)

-- A job of a node of a known workflow, whose id is not one of the two reserved ones, for an execution that
-- is cancelled or paused and has no result for the node that succeeded or was skipped, starts nothing,
-- and every execution reads as before: on a cancelled one it returns the cancellation error without a
-- call, on a paused one its only call is to move itself to the delayed jobs, for 5000 ms from now.
pub process_node_job-halted :
    (setup : Setup) (job_data : NodeJobData) (job : Job) (workflow : WorkflowDefinition)
    (node : NodeDefinition) (w : World) (e : ExecutionState) (p : Processed) (calls : List Call)
    → (job_data.node_id == "__root__") ≡ false
    → (job_data.node_id == "__aggregator__") ≡ false
    → setup.deps.workflow_of job_data.workflow_id ≡ some workflow
    → find_node workflow.nodes job_data.node_id ≡ some node
    → view w.store job_data.execution_id ≡ some e
    → already (get e.node_results job_data.node_id) ≡ false
    → halted w.now e.status ≡ some (p, calls)
    → EndsWith w p calls (process_node_job setup job_data job w)
process_node_job-halted setup job_data job workflow node w e p calls root aggregator known found
      exists fresh halts =
    subst (EndsWith w p calls)
      (sym (routed-process_node_job setup job_data job node w workflow root aggregator known found))
      (route-halted setup job_data job node w e p calls exists fresh halts)
