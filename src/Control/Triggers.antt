-- ===== src/Control/Triggers.antt =====
-- src/engine/workflow-engine.ts: the callers of enqueueWorkflow: triggerWebhook, replayWorkflow,
-- enqueueBulkWorkflows and scheduleWorkflow.
use Prim.Native.String
use spane.Base.{
  ℕ, ◌+◌, String, Bool, true, false, Option, none, some, List, [], ◌∷◌, ◌++◌, ◌==◌, ◌&&◌, ltb, ◌-◌,
  if◌then◌else◌,
}
use spane.Base.Int.{pos}
use spane.Types.Json.{Value, Fields, str, end, field, put_field}
use spane.Types.Workflow.{
  WorkflowDefinition, WorkflowTrigger, webhook, schedule, Method, get_method, post_method,
  put_method, delete_method,
}
use spane.Types.Execution.{ExecutionState}
use spane.Memory.Executions.{get_execution, update_execution_metadata}
use spane.Memory.Observability.{add_log}
use spane.Errors.{other_error}
use spane.Control.Queue.{NodeQueue}
use spane.Control.Services.{WorkflowCache, WorkflowStore, Ended, ended, raised}
use spane.Control.Schedules.{triggers_of}
use spane.Control.Enqueue.{
  EnqueueOptions, Draw, State, request, no_options, engine_log, enqueue_workflow,
}

abbrev pub method_text : Method → String
method_text get_method = "GET"
method_text post_method = "POST"
method_text put_method = "PUT"
method_text delete_method = "DELETE"

-- a trigger without a method takes any
abbrev pub takes_method : Option Method → String → Bool
takes_method none method = true
takes_method (some m) method = method_text m == method

unfoldable pub is_triggered : String → String → WorkflowTrigger → Bool
is_triggered path method (webhook p m) = p == path && takes_method m method
is_triggered path method (schedule cron timezone) = false

-- the ids of the workflows to start, one for each trigger that fits
unfoldable pub triggered_by : String → String → String → List WorkflowTrigger → List String
triggered_by path method id [] = []
triggered_by path method id (t ∷ ts) =
    let rest = triggered_by path method id ts in
    if is_triggered path method t then id ∷ rest else rest

unfoldable pub triggered : String → String → List WorkflowDefinition → List String
unfolding triggered_by
triggered path method [] = []
triggered path method (w ∷ ws) =
    triggered_by path method w.id (triggers_of w.triggers) ++ triggered path method ws

-- `{ ...base, ...metadata }`
abbrev pub spread : Fields → Fields → Fields
spread base end = base
spread base (field k v fs) = spread (put_field base k v) fs

abbrev pub fields_of : Option Fields → Fields
fields_of none = end
fields_of (some fs) = fs

-- the metadata of a replay: those of the execution go over the link to it
abbrev pub replay_metadata : String → ExecutionState → Fields
replay_metadata execution_id e =
    spread (field "replayedFrom" (str execution_id) end) (fields_of e.metadata)

-- an entry of enqueueBulkWorkflows
pub record BulkItem : Type 0 where
  pub workflow_id : String
  pub initial_data : Value
  pub options : EnqueueOptions

module _ (node_queue : NodeQueue) (workflow_cache : WorkflowCache) (workflows : WorkflowStore)
    (decimal : ℕ → String) where
  abbrev pub EngineState : Type 0
  EngineState = State node_queue workflow_cache workflows

  -- The executions are started one after the other, and the first error ends the call. The n-th of them
  -- uses the n-th ids drawn.
  unfoldable pub start_triggered :
      (ℕ → Draw) → ℕ → Value → List String → EngineState → Ended (List String) × EngineState
  start_triggered draw n input [] st = (ended [], st)
  start_triggered draw n input (id ∷ ids) st =
      let (answer, st') =
        enqueue_workflow node_queue workflow_cache workflows decimal (draw n)
          (request id input no_options) st in
      let (rest, st'') = start_triggered draw (n + 1) input ids st' in
      elim answer [
        | raised f ↦ (raised f, st')
        | ended execution_id ↦ elim rest [
          | raised f ↦ (raised f, st'')
          | ended execution_ids ↦ (ended (execution_id ∷ execution_ids), st'')
        ]
      ]

  -- over the workflows that the iteration of the cache yields
  unfoldable pub trigger_webhook :
      (ℕ → Draw)
      → String
      → String
      → Value
      → List WorkflowDefinition
      → EngineState
      → Ended (List String) × EngineState
  unfolding start_triggered triggered
  trigger_webhook draw path method input visited st =
      start_triggered draw 0 input (triggered path method visited) st

  abbrev pub link_replay :
      Draw → String → ExecutionState → Ended String × EngineState → Ended String × EngineState
  link_replay draw execution_id e (raised f, st) = (raised f, st)
  link_replay draw execution_id e (ended new_id, st) = (
    ended new_id,
    record st {
      store =
          add_log st.now
            (engine_log st.now draw.log_id new_id (String.◌++◌ "Replay of execution " execution_id))
            (update_execution_metadata st.now new_id (some (replay_metadata execution_id e))
              st.store);
    },
  )

  unfoldable pub replay_workflow : Draw → Draw → String → EngineState → Ended String × EngineState
  replay_workflow draw logged execution_id st =
      let (found, s) = get_execution st.now execution_id st.store in
      let st' = record st { store = s } in
      elim found [
        | none ↦ (
          raised (other_error (String.◌++◌ "Execution " (String.◌++◌ execution_id " not found"))),
          st',
        )
        | some e ↦ link_replay logged execution_id e (
            enqueue_workflow node_queue workflow_cache workflows decimal draw
              (request e.workflow_id e.initial_data no_options) st')
      ]

  abbrev pub answer_or_empty : Ended String → String
  answer_or_empty (ended id) = id
  answer_or_empty (raised f) = ""

  -- An error is logged, and its place in the answers is "".
  unfoldable pub enqueue_bulk_workflows :
      List (Draw × BulkItem) → EngineState → List String × EngineState
  enqueue_bulk_workflows [] st = ([], st)
  enqueue_bulk_workflows ((draw, item) ∷ items) st =
      let (answer, st') =
        enqueue_workflow node_queue workflow_cache workflows decimal draw
          (request item.workflow_id item.initial_data item.options) st in
      let (ids, st'') = enqueue_bulk_workflows items st' in (answer_or_empty answer ∷ ids, st'')

  -- `executeAt.getTime() - Date.now()`, if it is not below zero
  unfoldable pub schedule_workflow :
      Draw → String → Value → ℕ → EngineState → Ended String × EngineState
  schedule_workflow draw workflow_id initial_data execute_at st =
      if ltb execute_at st.now
      then (raised (other_error "Cannot schedule workflow in the past"), st)
      else enqueue_workflow node_queue workflow_cache workflows decimal draw
          (request workflow_id initial_data
            (record no_options { delay = some (pos (execute_at - st.now)) }))
          st
