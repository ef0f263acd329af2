-- ===== src/Metrics/Report.antt =====
-- src/utils/metrics.ts: toPrometheus and toJSON. How a number is printed is an argument.
use Prim.Native.String.{String, ◌++◌}
use spane.Base.{ℕ, ◌+◌, ltb, List, [], ◌∷◌, length, if◌then◌else◌}
use spane.Base.Dict.{Dict}
use spane.Graph.Errors.{join}
use spane.Metrics.{MetricsData}
use spane.Metrics.Percentile.{calculate_percentile}

-- `reduce((a, b) => a + b, 0)`
abbrev pub sum : ℕ → List ℕ → ℕ
sum acc [] = acc
sum acc (x ∷ xs) = sum (acc + x) xs

pub record HistogramSummary : Type 0 where
  pub p50 : ℕ
  pub p90 : ℕ
  pub p95 : ℕ
  pub p99 : ℕ
  pub count : ℕ
  pub total : ℕ

unfoldable pub summary : List ℕ → HistogramSummary
summary samples = record {
  p50 = calculate_percentile samples 50;
  p90 = calculate_percentile samples 90;
  p95 = calculate_percentile samples 95;
  p99 = calculate_percentile samples 99;
  count = length samples;
  total = sum 0 samples;
}

-- the two objects of numbers, and that of the histograms
unfoldable pub counters_json : MetricsData → Dict ℕ
counters_json m =
    ("workflows_enqueued_total", m.workflows_enqueued_total)
    ∷ ("workflows_completed_total", m.workflows_completed_total)
    ∷ ("workflows_failed_total", m.workflows_failed_total)
    ∷ ("workflows_cancelled_total", m.workflows_cancelled_total)
    ∷ ("nodes_executed_total", m.nodes_executed_total)
    ∷ ("nodes_failed_total", m.nodes_failed_total)
    ∷ ("dlq_items_total", m.dlq_items_total)
    ∷ []

unfoldable pub gauges_json : MetricsData → Dict ℕ
gauges_json m =
    ("workflows_active", m.workflows_active)
    ∷ ("workflows_paused", m.workflows_paused)
    ∷ ("queue_waiting", m.queue_waiting)
    ∷ ("queue_active", m.queue_active)
    ∷ ("queue_delayed", m.queue_delayed)
    ∷ ("queue_failed", m.queue_failed)
    ∷ ("workers_active", m.workers_active)
    ∷ []

pub record MetricsReport : Type 0 where
  pub counters : Dict ℕ
  pub gauges : Dict ℕ
  pub histograms : Dict HistogramSummary

unfoldable pub to_json : MetricsData → MetricsReport
unfolding counters_json gauges_json summary
to_json m = record {
  counters = counters_json m;
  gauges = gauges_json m;
  histograms =
      ("workflow_duration_ms", summary m.workflow_duration_ms)
      ∷ ("node_duration_ms", summary m.node_duration_ms)
      ∷ ("queue_wait_time_ms", summary m.queue_wait_time_ms)
      ∷ [];
}

-- the metrics with one value: name, help text and value
unfoldable pub counters : MetricsData → List (String × String × ℕ)
counters m =
    ("workflows_enqueued_total", "Total number of workflows enqueued", m.workflows_enqueued_total)
    ∷ (
      "workflows_completed_total", "Total number of workflows completed",
      m.workflows_completed_total,
    )
    ∷ ("workflows_failed_total", "Total number of workflows failed", m.workflows_failed_total)
    ∷ (
      "workflows_cancelled_total", "Total number of workflows cancelled",
      m.workflows_cancelled_total,
    )
    ∷ ("nodes_executed_total", "Total number of nodes executed", m.nodes_executed_total)
    ∷ ("nodes_failed_total", "Total number of nodes failed", m.nodes_failed_total)
    ∷ ("dlq_items_total", "Total number of items in DLQ", m.dlq_items_total)
    ∷ []

unfoldable pub gauges : MetricsData → List (String × String × ℕ)
gauges m =
    ("workflows_active", "Current number of active workflows", m.workflows_active)
    ∷ ("workflows_paused", "Current number of paused workflows", m.workflows_paused)
    ∷ ("queue_waiting", "Current number of waiting jobs", m.queue_waiting)
    ∷ ("queue_active", "Current number of active jobs", m.queue_active)
    ∷ ("queue_delayed", "Current number of delayed jobs", m.queue_delayed)
    ∷ ("queue_failed", "Current number of failed jobs", m.queue_failed)
    ∷ ("workers_active", "Current number of active workers", m.workers_active)
    ∷ []

module _ (decimal : ℕ → String) where
  unfoldable pub scalar_lines : String → List (String × String × ℕ) → List String → List String
  scalar_lines kind [] rest = rest
  scalar_lines kind ((name, help, value) ∷ entries) rest =
      ("# HELP " ++ (name ++ (" " ++ help)))
      ∷ ("# TYPE " ++ (name ++ (" " ++ kind)))
      ∷ (name ++ (" " ++ decimal value))
      ∷ scalar_lines kind entries rest

  -- a histogram that has a sample
  unfoldable pub histogram_lines : String → String → List ℕ → List String → List String
  histogram_lines name help samples rest =
      let quantile = λ (q : String) (p : ℕ).
        name ++ ("{quantile=\"" ++ (q ++ ("\"} " ++ decimal (calculate_percentile samples p)))) in
      if ltb 0 (length samples)
      then ("# HELP " ++ (name ++ (" " ++ help)))
        ∷ ("# TYPE " ++ (name ++ " summary"))
        ∷ quantile "0.5" 50
        ∷ quantile "0.9" 90
        ∷ quantile "0.95" 95
        ∷ quantile "0.99" 99
        ∷ (name ++ ("_count " ++ decimal (length samples)))
        ∷ (name ++ ("_sum " ++ decimal (sum 0 samples)))
        ∷ rest
      else rest

  unfoldable pub prometheus_lines : MetricsData → List String
  unfolding scalar_lines counters gauges histogram_lines
  prometheus_lines m = scalar_lines "counter" (counters m) (
      scalar_lines "gauge" (gauges m) (
        histogram_lines "workflow_duration_ms" "Workflow execution duration in milliseconds"
          m.workflow_duration_ms
          (histogram_lines "node_duration_ms" "Node execution duration in milliseconds"
            m.node_duration_ms
            (histogram_lines "queue_wait_time_ms" "Time jobs spend waiting in queue in milliseconds"
              m.queue_wait_time_ms []))))

  unfoldable pub to_prometheus : MetricsData → String
  unfolding prometheus_lines
  to_prometheus m = join "\n" (prometheus_lines m) ++ "\n"
