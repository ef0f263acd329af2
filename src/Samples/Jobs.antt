-- ===== src/Samples/Jobs.antt =====
-- Samples of the processing of node jobs.
use spane.Base.{true, String, ◌≡◌, refl, false, none, some, [], ◌∷◌, ◌++◌, has, ◌==◌, if◌then◌else◌}
use spane.Base.Dict.{get}
use spane.Types.Json.{get_field, null}
use spane.Types.Execution.{ExecutionResult, ExecutionState}
use spane.Memory.Executions.View.{view, update_view}
use spane.Base.Int.{pos}
use spane.NodeUtils.Duration.{resolve_duration, as_number}
use spane.Engine.World.{World}
use spane.Engine.Children.{check_and_enqueue_children}
use spane.Engine.Children.Ready.{results_in, ready_calls, check_and_enqueue_children-all}
use spane.Engine.Children.Skips.{with_skips, skipped_outputs, check_and_enqueue_children-skips}
use spane.Engine.Children.Fuel.{check_and_enqueue_children-returns}
use spane.Engine.Completion.{check_workflow_completion, lock_key}
use spane.Engine.Completion.Locked.{completed_view, announcement, lock_calls, message}
use spane.Memory.Executions.{with_status}
use spane.Types.Execution.{Status}
use spane.Engine.Completion.{handle_workflow_error}
use spane.Engine.Completion.Failed.{check_workflow_completion-handle_workflow_error}
use spane.Engine.Completion.Once.{
  will_complete, view-check_workflow_completion, calls-check_workflow_completion,
}
use spane.Engine.Registry.{Outcome}
use spane.Engine.Execution.{execute_regular_node}
use spane.Engine.Execution.Ending.{Settles, execute_regular_node-Settles}
use spane.Engine.Delay.{process_delay_node}
use spane.Engine.Delay.Steps.{first_calls, process_delay_node_first}
use spane.Samples.Workflows.{
  orders, check, pause, fetched, checked, execution_with, done_with, world_with, deps, job,
  job_data_of, registry,
}

execute_regular_node-Settles_example :
    (o : Outcome) × (w' : World) × (execute_regular_node deps 2
        (job_data_of "check" none)
        job
        check
        registry
        false
        (some fetched)
        (world_with fetched)
      ≡ some (o, w'))
    × Settles (job_data_of "check" none) (world_with fetched) o w'
unfolding has view get
execute_regular_node-Settles_example =
    execute_regular_node-Settles (job_data_of "check" none) deps 0 job check registry false
      (world_with fetched) fetched refl refl

check_and_enqueue_children-all_example :
    (w' : World) × (check_and_enqueue_children deps "exec-1" "orders"
        (some job)
        1
        check
        none
        (world_with checked)
      ≡ some w')
    × (w'.calls
        ≡ (world_with checked).calls
          ++ ready_calls deps "exec-1" "orders"
              (some job)
              orders
              (results_in (world_with checked) "exec-1")
              check.outputs)
    × ((j : String) → view w'.store j ≡ view (world_with checked).store j)
check_and_enqueue_children-all_example =
    check_and_enqueue_children-all deps "exec-1" "orders" (some job) 0 orders check
      (world_with checked) refl

check_and_enqueue_children-skips_example :
    (w' : World) × (check_and_enqueue_children deps "exec-1" "orders"
        (some job)
        2
        check
        (some ("save" ∷ []))
        (world_with checked)
      ≡ some w')
    × ((j : String)
        → view w'.store j ≡ (
            if "exec-1" == j
            then update_view
                (with_skips (skipped_outputs (some ("save" ∷ [])) check.outputs))
                (view (world_with checked).store "exec-1")
            else view (world_with checked).store j))
check_and_enqueue_children-skips_example =
    check_and_enqueue_children-skips deps "exec-1" "orders" (some job) 0 orders check
      (some ("save" ∷ [])) (world_with checked) refl

check_and_enqueue_children-returns_example :
    (w' : World) × (check_and_enqueue_children deps "exec-1" "orders"
        (some job)
        2
        check
        (some [])
        (world_with checked)
      ≡ some w')
check_and_enqueue_children-returns_example =
    check_and_enqueue_children-returns deps "exec-1" "orders" (some job) 0 check (some [])
      (world_with checked)

view-check_workflow_completion_example :
    view
      (check_workflow_completion "exec-1" "orders" (some job) deps (world_with checked)).store
      "exec-1"
    ≡ (if "exec-1" == "exec-1"
        then completed_view
            (will_complete deps "exec-1" "orders" (world_with checked))
            100
            (view (world_with checked).store "exec-1")
        else view (world_with checked).store "exec-1")
view-check_workflow_completion_example =
    view-check_workflow_completion "exec-1" "orders" (some job) deps (world_with checked) "exec-1"

calls-check_workflow_completion_example :
    (check_workflow_completion "exec-1" "orders" (some job) deps (world_with checked)).calls
    ≡ (world_with checked).calls
      ++ lock_calls (lock_key "exec-1") (some orders) (some "token-1") (
          announcement
            (some job)
            (message "exec-1" "orders" (some job) 100)
            (will_complete deps "exec-1" "orders" (world_with checked)))
calls-check_workflow_completion_example =
    calls-check_workflow_completion "exec-1" "orders" (some job) deps (world_with checked)

-- every node of the workflow has a result
abbrev ended_run : ExecutionState
ended_run =
    execution_with
      (("fetch", done_with null)
        ∷ ("check", done_with null)
        ∷ ("save", done_with null)
        ∷ ("alert", done_with null)
        ∷ [])
      Status.running

process_delay_node_first_example :
    (r : ExecutionResult) × (w' : World) × (process_delay_node deps 2
        (job_data_of "pause" none)
        job
        pause
        (world_with fetched)
      ≡ some (r, w'))
    × (w'.store ≡ (world_with fetched).store)
    × (w'.calls
        ≡ (world_with fetched).calls
          ++ first_calls deps (job_data_of "pause" none) 100 (some (pos 500)))
    × (r.success ≡ true)
unfolding resolve_duration as_number get_field
process_delay_node_first_example =
    process_delay_node_first deps 2 (job_data_of "pause" none) job pause (world_with fetched) refl

check_workflow_completion-handle_workflow_error_example :
    view
      (check_workflow_completion "exec-1" "orders" (some job) deps (
        handle_workflow_error "exec-1" "orders"
          (some job)
          "no connection"
          (world_with checked))).store
      "exec-1"
    ≡ update_view (with_status 100 Status.failed) (view (world_with checked).store "exec-1")
check_workflow_completion-handle_workflow_error_example =
    check_workflow_completion-handle_workflow_error "exec-1" "orders" (some job) (some job)
      "no connection" deps (world_with checked)
