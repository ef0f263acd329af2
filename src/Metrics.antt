-- ===== src/Metrics.antt =====
-- src/utils/metrics.ts: MetricsCollector. A method that writes returns the new metrics; what the queues
-- and the workers answer to `updateQueueMetrics` is an argument, `none` where the call throws.
pub mod Double
pub mod Histogram
pub mod Percentile
pub mod Report
use spane.Base.{
  ℕ, zero, suc, ◌+◌, ◌-◌, Bool, true, false, Option, none, some, List, [], ◌∷◌, ◌++◌, length, ltb,
  leb, if◌then◌else◌,
}

pub record MetricsData : Type 0 where
  pub workflows_enqueued_total : ℕ
  pub workflows_completed_total : ℕ
  pub workflows_failed_total : ℕ
  pub workflows_cancelled_total : ℕ
  pub nodes_executed_total : ℕ
  pub nodes_failed_total : ℕ
  pub dlq_items_total : ℕ
  pub workflows_active : ℕ
  pub workflows_paused : ℕ
  pub queue_waiting : ℕ
  pub queue_active : ℕ
  pub queue_delayed : ℕ
  pub queue_failed : ℕ
  pub workers_active : ℕ
  pub workflow_duration_ms : List ℕ
  pub node_duration_ms : List ℕ
  pub queue_wait_time_ms : List ℕ

abbrev pub no_metrics : MetricsData
no_metrics = record {
  workflows_enqueued_total = 0;
  workflows_completed_total = 0;
  workflows_failed_total = 0;
  workflows_cancelled_total = 0;
  nodes_executed_total = 0;
  nodes_failed_total = 0;
  dlq_items_total = 0;
  workflows_active = 0;
  workflows_paused = 0;
  queue_waiting = 0;
  queue_active = 0;
  queue_delayed = 0;
  queue_failed = 0;
  workers_active = 0;
  workflow_duration_ms = [];
  node_duration_ms = [];
  queue_wait_time_ms = [];
}

-- the last 1000 samples are kept
abbrev pub max_histogram_size : ℕ
max_histogram_size = 1000

unfoldable pub increment_workflows_enqueued : MetricsData → MetricsData
increment_workflows_enqueued m = record m {
  workflows_enqueued_total = m.workflows_enqueued_total + 1;
}

unfoldable pub increment_workflows_completed : MetricsData → MetricsData
increment_workflows_completed m = record m {
  workflows_completed_total = m.workflows_completed_total + 1;
}

unfoldable pub increment_workflows_failed : MetricsData → MetricsData
increment_workflows_failed m = record m { workflows_failed_total = m.workflows_failed_total + 1 }

unfoldable pub increment_workflows_cancelled : MetricsData → MetricsData
increment_workflows_cancelled m = record m {
  workflows_cancelled_total = m.workflows_cancelled_total + 1;
}

unfoldable pub increment_nodes_executed : MetricsData → MetricsData
increment_nodes_executed m = record m { nodes_executed_total = m.nodes_executed_total + 1 }

unfoldable pub increment_nodes_failed : MetricsData → MetricsData
increment_nodes_failed m = record m { nodes_failed_total = m.nodes_failed_total + 1 }

unfoldable pub increment_dlq_items : MetricsData → MetricsData
increment_dlq_items m = record m { dlq_items_total = m.dlq_items_total + 1 }

unfoldable pub set_workflows_active : ℕ → MetricsData → MetricsData
set_workflows_active count m = record m { workflows_active = count }

unfoldable pub set_workflows_paused : ℕ → MetricsData → MetricsData
set_workflows_paused count m = record m { workflows_paused = count }

-- `array.shift()`
abbrev pub shift : List ℕ → List ℕ
shift [] = []
shift (x ∷ xs) = xs

-- push, then shift if over the limit
unfoldable pub observe : List ℕ → ℕ → List ℕ
observe samples x =
    let pushed = samples ++ x ∷ [] in
    if ltb max_histogram_size (length pushed) then shift pushed else pushed

unfoldable pub observe_workflow_duration : ℕ → MetricsData → MetricsData
unfolding observe
observe_workflow_duration duration m = record m {
  workflow_duration_ms = observe m.workflow_duration_ms duration;
}

unfoldable pub observe_node_duration : ℕ → MetricsData → MetricsData
unfolding observe
observe_node_duration duration m = record m {
  node_duration_ms = observe m.node_duration_ms duration;
}

unfoldable pub observe_queue_wait_time : ℕ → MetricsData → MetricsData
unfolding observe
observe_queue_wait_time wait_time m = record m {
  queue_wait_time_ms = observe m.queue_wait_time_ms wait_time;
}

-- what `queue.getJobCounts()` answers
pub record JobCounts : Type 0 where
  pub waiting : Option ℕ
  pub active : Option ℕ
  pub delayed : Option ℕ
  pub failed : Option ℕ

-- `count || 0`
abbrev pub or_zero : Option ℕ → ℕ
or_zero none = 0
or_zero (some n) = n

pub record Totals : Type 0 where
  pub waiting : ℕ
  pub active : ℕ
  pub delayed : ℕ
  pub failed : ℕ

-- the loop over the queues; a queue whose call throws is passed over
unfoldable pub add_counts : List (Option JobCounts) → Totals → Totals
add_counts [] t = t
add_counts (none ∷ answers) t = add_counts answers t
add_counts (some c ∷ answers) t = add_counts answers (record {
  waiting = t.waiting + or_zero c.waiting;
  active = t.active + or_zero c.active;
  delayed = t.delayed + or_zero c.delayed;
  failed = t.failed + or_zero c.failed;
})

-- `if (worker.isRunning()) activeWorkers++`
abbrev pub add_running : Option Bool → ℕ → ℕ
add_running none n = n
add_running (some running) n = if running then n + 1 else n

unfoldable pub count_running : List (Option Bool) → ℕ → ℕ
count_running [] n = n
count_running (answer ∷ answers) n = count_running answers (add_running answer n)

unfoldable pub update_queue_metrics :
    List (Option JobCounts) → List (Option Bool) → MetricsData → MetricsData
unfolding add_counts count_running
update_queue_metrics queues workers m =
    let t = add_counts queues (record { waiting = 0; active = 0; delayed = 0; failed = 0 }) in
    record m {
      queue_waiting = t.waiting;
      queue_active = t.active;
      queue_delayed = t.delayed;
      queue_failed = t.failed;
      workers_active = count_running workers 0;
    }
