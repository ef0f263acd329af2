-- ===== src/Engine/Delay/Resumed.antt =====
-- src/engine/handlers/delay-handler.ts: what the resumed job of a delay node does.
use spane.Base.{ℕ, String, ◌≡◌, Bool, true, false, Option, some}
use spane.Types.Workflow.{NodeDefinition}
use spane.Types.Execution.{ExecutionResult, ExecutionState, error_result}
use spane.Memory.Executions.View.{view}
use spane.Engine.World.{World, Job, Deps, NodeJobData, read_results}
use spane.Engine.Inputs.{build_node_input_data}
use spane.Engine.Execution.Advance.{stored}

module _ (job_data : NodeJobData) where
  -- the resumed job of an execution `e` returns `r`
  abbrev pub Resumes :
      NodeDefinition → World → ExecutionState → Bool → ExecutionResult → World → Type 0
  Resumes node w e true r w' =
      (r ≡ error_result "Workflow execution cancelled")
      × ((j : String) → view w'.store j ≡ view w.store j)
  Resumes node w e false r w' =
      (r.output
        ≡ build_node_input_data job_data.input_data node.inputs
            (read_results job_data.execution_id node.inputs w).0)
      × (stored w' job_data.execution_id job_data.node_id ≡ some r)

  module _ (deps : Deps) (fuel : ℕ) (job : Job) (node : NodeDefinition) (w : World) where
    abbrev ResumedRun : ExecutionState → Bool → Option (ExecutionResult × World) → Type 0
    ResumedRun e cancelled ran =
        (r : ExecutionResult) × (w' : World) × (ran ≡ some (r, w'))
        × Resumes node w e cancelled r w'
