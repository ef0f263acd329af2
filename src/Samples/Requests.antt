-- ===== src/Samples/Requests.antt =====
-- The theorems on the requests for workflows, at concrete queues and caches.
use Prim.Native.String.{String}
use spane.Base.{ℕ, ◌≡◌, refl, some, [], ◌∷◌, ◌==◌, if◌then◌else◌}
use spane.Base.Int.{pos}
use spane.Base.Dict.{Dict, get}
use spane.Types.Json.{null, end}
use spane.Types.Workflow.{NodeDefinition, WorkflowDefinition, find_node}
use spane.Metrics.{no_metrics}
use spane.Control.Queue.{QueuedJob}
use spane.Control.Services.{EngineState, ended}
use spane.Control.Enqueue.{
  Draw, Request, no_options, request, priority_error, entry_nodes, enqueue_workflow, get_workflow,
}
use spane.Control.Enqueue.Refused.{Leaves, enqueue_workflow-refused}
use spane.Control.Enqueue.Entries.{job_id_of, entry_job}
use spane.Control.Enqueue.Accepted.{enqueue_workflow_entries, enqueue_workflow_shared}
use spane.Samples.Workflows.{node_of, fetch, workflow_with, fetched, store_with}
use spane.Samples.Queue.{node_queue, find_job}
use spane.Samples.Services.{workflow_cache, workflow_store}

-- a workflow with two entry nodes
abbrev ping : NodeDefinition
ping = node_of "ping" "http" end [] []

abbrev two_entries : WorkflowDefinition
two_entries = workflow_with "" (fetch ∷ ping ∷ [])

-- an engine that has the workflow in its cache, and an empty queue
abbrev engine : EngineState (Dict QueuedJob) (Dict WorkflowDefinition) (Dict WorkflowDefinition)
engine = record {
  store = store_with fetched;
  queue = [];
  cache = ("orders", two_entries) ∷ [];
  saved = [];
  metrics = some no_metrics;
  now = 100;
}

abbrev draw : Draw
draw = record { id = "exec-7"; log_id = "log-1" }

-- the only number that the samples print is 100
abbrev decimal : ℕ → String
decimal n = "100"

abbrev urgent : Request
urgent = request "orders" null (record no_options { priority = some (pos 11) })

enqueue_workflow-refused_example :
    Leaves draw urgent priority_error engine
      (enqueue_workflow node_queue workflow_cache workflow_store decimal draw urgent engine)
unfolding get_workflow entry_nodes get
enqueue_workflow-refused_example =
    enqueue_workflow-refused node_queue workflow_cache workflow_store decimal draw urgent
      two_entries priority_error engine refl refl

abbrev plain : Request
plain = request "orders" null no_options

enqueue_workflow_entries_example :
    ((enqueue_workflow node_queue workflow_cache workflow_store decimal draw plain engine).0
      ≡ ended "exec-7")
    × (find_job
          (enqueue_workflow node_queue workflow_cache workflow_store decimal draw plain
            engine).1.queue
          (job_id_of node_queue decimal 100 draw plain ping)
        ≡ some (entry_job node_queue decimal 100 draw plain ping))
unfolding get_workflow entry_nodes get find_node find_job
enqueue_workflow_entries_example =
    enqueue_workflow_entries node_queue workflow_cache workflow_store decimal draw plain two_entries
      (fetch ∷ ping ∷ []) engine "ping" ping refl refl refl refl refl refl refl

abbrev named : Request
named = request "orders" null (record no_options { job_id = some "nightly" })

enqueue_workflow_shared_example :
    ((enqueue_workflow node_queue workflow_cache workflow_store decimal draw named engine).0
      ≡ ended "exec-7")
    × (find_job
          (enqueue_workflow node_queue workflow_cache workflow_store decimal draw named
            engine).1.queue
          "nightly"
        ≡ (if "nightly" == "nightly"
            then some (entry_job node_queue decimal 100 draw named fetch)
            else find_job [] "nightly"))
unfolding get_workflow entry_nodes get find_job
enqueue_workflow_shared_example =
    enqueue_workflow_shared node_queue workflow_cache workflow_store decimal draw named two_entries
      (fetch ∷ ping ∷ []) engine "nightly" fetch (ping ∷ []) "nightly" refl refl refl refl refl refl
      refl
