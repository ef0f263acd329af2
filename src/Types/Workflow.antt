-- ===== src/Types/Workflow.antt =====
-- src/types.ts: workflow definitions, their nodes and their triggers.
use spane.Base.{ℕ, String, Option, List, [], ◌∷◌, ◌==◌, if◌then◌else◌, none, some}
use spane.Types.Json.{Fields}

pub record NodeDefinition : Type 0 where
  pub id : String
  pub type : String
  pub config : Fields
  pub inputs : List String
  pub outputs : List String

pub data Method : Type 0 where
  get_method post_method put_method delete_method : Method

-- `webhook path method` and `schedule cron timezone`
pub data WorkflowTrigger : Type 0 where
  webhook : String → Option Method → WorkflowTrigger
  schedule : String → Option String → WorkflowTrigger

-- `entry_node_id` is "" where the definition names no entry node
pub record WorkflowDefinition : Type 0 where
  pub id : String
  pub name : String
  pub nodes : List NodeDefinition
  pub entry_node_id : String
  pub max_concurrency : Option ℕ
  pub concurrency_lock_ttl : Option ℕ
  pub triggers : Option (List WorkflowTrigger)
  pub priority : Option ℕ
  pub delay : Option ℕ
  pub job_id : Option String

-- `nodes.find(n => n.id === id)`
unfoldable pub find_node : List NodeDefinition → String → Option NodeDefinition
find_node [] id = none
find_node (n ∷ ns) id = if n.id == id then some n else find_node ns id
