-- ===== src/Samples/Reports.antt =====
-- The theorems on metrics, events and failures, at concrete samples and jobs.
use spane.Base.{ℕ, ◌*◌, ◌≤◌, ◌<◌, ◌≡◌, refl, none, some, List, [], ◌∷◌, ◌++◌, true, length, arith}
use spane.Types.Json.{Value, null}
use spane.Memory.Executions.View.{view, update_view}
use spane.Engine.Completion.{check_workflow_completion}
use spane.Engine.Failures.{FailedJob, Failing, failed_with, on_node_failed}
use spane.Engine.Failures.Exhausted.{failed_at, one_more, on_node_failed_exhausted}
use spane.Events.{NodeStatus, WorkflowStatus}
use spane.Events.Guards.{
  create_node_progress_event, create_workflow_status_event, is_valid_workflow_event,
  is_node_progress_event, is_workflow_status_event, is_valid_workflow_event-create,
}
use spane.Metrics.{no_metrics}
use spane.Metrics.Histogram.{
  Observation, node_duration, queue_wait_time, workflow_durations, node_durations, queue_wait_times,
  latest, observe_run, observe_run-latest,
}
use spane.Metrics.Double.{ceil_share}
use spane.Metrics.Percentile.{
  calculate_percentile, count_at_most, count_below, calculate_percentile_rank,
}
use spane.Samples.Workflows.{fetched, world_with, deps, job_data_of}

abbrev run : List Observation
run = node_duration 12 ∷ queue_wait_time 3 ∷ node_duration 8 ∷ []

observe_run-latest_example :
    ((observe_run run no_metrics).workflow_duration_ms ≡ latest (workflow_durations run))
    × ((observe_run run no_metrics).node_duration_ms ≡ latest (node_durations run))
    × ((observe_run run no_metrics).queue_wait_time_ms ≡ latest (queue_wait_times run))
observe_run-latest_example = observe_run-latest run

abbrev durations : List ℕ
durations = 30 ∷ 10 ∷ 20 ∷ []

-- here the index is not the one that exact arithmetic gives, (7 * 100 + 99) / 100 = 7
ceil_share-rounded : ceil_share 7 100 ≡ 8
unfolding ceil_share
ceil_share-rounded = refl

calculate_percentile_rank_example :
    (90 * length durations ≤ 100 * count_at_most (calculate_percentile durations 90) durations)
    × (100 * count_below (calculate_percentile durations 90) durations < 90 * length durations)
calculate_percentile_rank_example =
    calculate_percentile_rank durations 90 refl (omega arith) (omega arith)

abbrev failing : Failing
failing = record { world = world_with fetched; dlq = []; metrics = some no_metrics }

abbrev last_try : FailedJob
last_try = record {
  id = "exec-1-node-check";
  payload = job_data_of "check" none;
  attempts = some 3;
  attempts_made = 3;
  stacktrace = [];
}

on_node_failed_exhausted_example :
    ((on_node_failed (some last_try) (failed_with "no connection") failing).dlq
      ≡ []
        ++ record {
          job_id = "exec-1-node-check";
          payload = job_data_of "check" none;
          failed_reason = "no connection";
          timestamp = 100;
          stacktrace = [];
        }
          ∷ [])
    × ((on_node_failed (some last_try) (failed_with "no connection") failing).metrics
        ≡ one_more (some no_metrics))
    × (view
          (on_node_failed (some last_try) (failed_with "no connection") failing).world.store
          "exec-1"
        ≡ update_view
            (failed_at 100 "check" "no connection")
            (view (world_with fetched).store "exec-1"))
    × (view
          (check_workflow_completion "exec-1" "orders" none deps
            (on_node_failed (some last_try) (failed_with "no connection") failing).world).store
          "exec-1"
        ≡ view
            (on_node_failed (some last_try) (failed_with "no connection") failing).world.store
            "exec-1")
on_node_failed_exhausted_example =
    on_node_failed_exhausted last_try "no connection" deps failing refl

is_valid_workflow_event-create_example :
    ((is_valid_workflow_event (
          create_node_progress_event 100 "exec-1" "check" "orders" NodeStatus.failed null
            (some "no connection")
            null)
        ≡ true)
      × (is_node_progress_event (
            create_node_progress_event 100 "exec-1" "check" "orders" NodeStatus.failed null
              (some "no connection")
              null)
          ≡ true))
    × ((is_valid_workflow_event (
            create_workflow_status_event 100 "exec-1" "orders" WorkflowStatus.failed
              (some "no connection"))
          ≡ true)
        × (is_workflow_status_event (
              create_workflow_status_event 100 "exec-1" "orders" WorkflowStatus.failed
                (some "no connection"))
            ≡ true))
is_valid_workflow_event-create_example =
    is_valid_workflow_event-create 100 "exec-1" "check" "orders" NodeStatus.failed
      WorkflowStatus.failed null null (some "no connection")

abbrev event : Value
event =
    create_workflow_status_event 100 "exec-1" "orders" WorkflowStatus.failed (some "no connection")
