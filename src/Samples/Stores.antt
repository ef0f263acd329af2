-- ===== src/Samples/Stores.antt =====
-- Samples of the in-memory store.
use spane.Base.{◌≤◌, ◌≡◌, refl, none, some, [], ◌∷◌, has, arith}
use spane.Base.Dict.{get, remove}
use spane.Types.Json.{null, str}
use spane.Types.Execution.{Status}
use spane.Memory.State.{Store, empty, default_config}
use spane.Memory.Cleanup.{cleanup, evict, forget_all, insert_by_access, sort_by_access, first_ids}
use spane.Memory.Cleanup.Limit.{evict-least_recent}
use spane.Memory.Cleanup.Expiry.{get-cleanup}
use spane.Memory.Executions.{get_node_results, update_node_result}
use spane.Memory.Executions.View.{view, get_node_results-update_node_result}
use spane.Memory.Bounds.{IsBounded, created, cleaned, perform_all}
use spane.Memory.Bounds.Always.{perform_all-empty-IsBounded}
use spane.Samples.Workflows.{execution_with, fetched, stamped, store_with, done_with}

perform_all-empty-IsBounded_example :
    IsBounded default_config (
      perform_all
        ((1, created "a" "orders" none 0 null) ∷ (2, cleaned) ∷ [])
        (empty default_config))
perform_all-empty-IsBounded_example =
    perform_all-empty-IsBounded default_config
      ((1, created "a" "orders" none 0 null) ∷ (2, cleaned) ∷ []) (omega arith) (omega arith)

-- a finished and a running execution, in a store for one
abbrev crowded : Store
crowded = record {
  executions =
      ("old", stamped 1 (record (execution_with [] Status.completed) { completed_at = some 5 }))
      ∷ ("new", stamped 20 (execution_with [] Status.running))
      ∷ [];
  logs = [];
  traces = [];
  config = record default_config { max_executions = 1; completed_execution_ttl = 10 };
}

evict-least_recent_example : ◌≤◌ 1 20
unfolding get evict forget_all insert_by_access sort_by_access first_ids remove
evict-least_recent_example =
    evict-least_recent crowded "new" "old" (stamped 20 (execution_with [] Status.running))
      (stamped 1 (record (execution_with [] Status.completed) { completed_at = some 5 }))
      (refl, (refl, tt)) refl refl refl refl

-- the same with room for both
abbrev aged : Store
aged = record crowded { config = record (crowded.config) { max_executions = 2 } }

get-cleanup_example : get (cleanup 100 aged).executions "old" ≡ none
unfolding get
get-cleanup_example = get-cleanup 100 aged "old" (refl, (refl, tt)) (omega arith)

get_node_results-update_node_result_example :
    get
      (get_node_results 100 "exec-1"
        ("save" ∷ [])
        (update_node_result 100 "exec-1" "save" (done_with (str "row")) (store_with fetched))).0
      "save"
    ≡ some (done_with (str "row"))
unfolding view get has
get_node_results-update_node_result_example =
    get_node_results-update_node_result 100 "exec-1" "save" (done_with (str "row"))
      (store_with fetched) fetched ("save" ∷ []) refl refl
