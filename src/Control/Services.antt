-- ===== src/Control/Services.antt =====
-- What the methods of src/engine/workflow-engine.ts work on: the state store, the node queue, the cache
-- of workflows, the stored workflows and the metrics. The cache is an LRUCache of lru-cache, which is
-- not part of the repository: it is a parameter, with its documented behaviour as laws. The stored
-- workflows are behind `stateStore.getWorkflow` and `stateStore.saveWorkflow`, which differ from store
-- to store: they are a parameter without laws.
use spane.Base.{ℕ, String, ◌≡◌, Option, some, List}
use spane.Types.Workflow.{WorkflowDefinition}
use spane.Errors.{Failure}
use spane.Memory.State.{Store}
use spane.Metrics.{MetricsData}

-- `get now id c` answers what the cache holds for an id at a time. An entry can be evicted or expire
-- whenever another is written, and a read moves it to the front.
pub record WorkflowCache : Type 1 where
  pub Cache : Type 0
  pub get : ℕ → String → Cache → Option WorkflowDefinition
  pub touch : ℕ → String → Cache → Cache
  pub set : ℕ → String → WorkflowDefinition → Cache → Cache
  pub values : ℕ → Cache → List WorkflowDefinition
  pub got_touched : (now : ℕ) (id j : String) (c : Cache) → get now j (touch now id c) ≡ get now j c
  pub got_set :
      (now : ℕ) (id : String) (w : WorkflowDefinition) (c : Cache)
      → get now id (set now id w c) ≡ some w

pub record WorkflowStore : Type 1 where
  pub Saved : Type 0
  pub stored : String → Saved → Option WorkflowDefinition
  pub save : WorkflowDefinition → Option String → Saved → Saved

pub record EngineState (Queue Cache Saved : Type 0) : Type 0 where
  pub store : Store
  pub queue : Queue
  pub cache : Cache
  pub saved : Saved
  pub metrics : Option MetricsData
  pub now : ℕ

-- how an asynchronous method ends
pub data Ended {ℓ} (A : Type ℓ) : Type ℓ where
  ended : A → Ended A
  raised : Failure → Ended A
