-- ===== src/Samples/Schedules.antt =====
-- The theorems on the registration of workflows and their schedules, at concrete schedulers.
use spane.Base.{◌≡◌, none, some, [], ◌∷◌}
use spane.Base.Dict.{Dict, get}
use spane.Types.Json.{end}
use spane.Types.Workflow.{WorkflowDefinition, webhook, schedule}
use spane.Control.Schedules.{Schedule, Registration, remove_workflow_schedulers}
use spane.Control.Schedules.Removed.{remove_workflow_schedulers_lem}
use spane.Samples.Workflows.{node_of, workflow_with}
use spane.Samples.Services.{workflow_queue}

abbrev hourly : Schedule
hourly = record { pattern = "0 * * * *"; timezone = none; workflow_id = "orders" }

-- the schedulers of an earlier version of the workflow
abbrev earlier : Dict Schedule
earlier = ("schedule:orders:0 * * * *", hourly) ∷ []

-- a workflow without an entry node and triggers
abbrev unstarted : WorkflowDefinition
unstarted = workflow_with "" (node_of "ping" "http" end [] [] ∷ [])

abbrev registration :
    Registration (Dict Schedule) (Dict WorkflowDefinition) (Dict WorkflowDefinition)
registration = record { schedulers = earlier; cache = []; saved = []; now = 100 }

-- the workflow with a daily schedule in place of the hourly one
abbrev daily : WorkflowDefinition
daily = record (workflow_with "ping" (node_of "ping" "http" end [] [] ∷ [])) {
  triggers = some (webhook "orders" none ∷ schedule "0 0 * * *" (some "UTC") ∷ []);
}

remove_workflow_schedulers_lem_example :
    get (remove_workflow_schedulers workflow_queue "orders" earlier).1 "schedule:orders:0 * * * *"
    ≡ none
remove_workflow_schedulers_lem_example =
    remove_workflow_schedulers_lem workflow_queue "orders" earlier "schedule:orders:0 * * * *"
