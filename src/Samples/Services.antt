-- ===== src/Samples/Services.antt =====
-- Services that meet the laws: a cache that evicts nothing, a store of workflows, and the schedulers by
-- their ids.
use spane.Base.{String, ◌≡◌, refl, ◌∙◌, Option, none, some, List, [], ◌∷◌, eq_refl}
use spane.Base.Dict.{Dict, get, put, remove, get-put, get-remove}
use spane.Types.Workflow.{WorkflowDefinition}
use spane.Control.Services.{WorkflowCache, WorkflowStore}
use spane.Control.Schedules.{WorkflowQueue, Schedule}

abbrev values_of : {V : Type 0} → Dict V → List V
values_of [] = []
values_of ((k, v) ∷ d) = v ∷ values_of d

abbrev ids_of : Dict Schedule → List (Option String)
ids_of [] = []
ids_of ((k, s) ∷ d) = some k ∷ ids_of d

pub got_put :
    (id : String) (w : WorkflowDefinition) (c : Dict WorkflowDefinition)
    → get (put c id w) id ≡ some w
got_put id w c = get-put c id w id ∙ (rw eq_refl refl)

abbrev pub workflow_cache : WorkflowCache
workflow_cache = record {
  Cache = Dict WorkflowDefinition;
  get = λ now id c. get c id;
  touch = λ now id c. c;
  set = λ now id w c. put c id w;
  values = λ now c. values_of c;
  got_touched = λ now id j c. refl;
  got_set = λ now id w c. got_put id w c;
}

abbrev pub workflow_store : WorkflowStore
workflow_store = record {
  Saved = Dict WorkflowDefinition;
  stored = λ id c. get c id;
  save = λ w notes c. put c w.id w;
}

abbrev pub workflow_queue : WorkflowQueue
workflow_queue = record {
  Schedulers = Dict Schedule;
  schedule_of = get;
  scheduler_ids = ids_of;
  upsert = λ id s q. (none, put q id s);
  remove = λ id q. remove q id;
  upserted = λ id s q k h. get-put q id s k;
  removed = λ id q k. get-remove q id k;
}
