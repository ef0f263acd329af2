-- ===== src/Memory/Executions.antt =====
-- src/db/inmemory-store.ts: the methods on executions.
pub mod View
use spane.Base.{
  ℕ, zero, suc, ◌+◌, ◌-◌, ◌*◌, String, Bool, true, false, Option, none, some, List, [], ◌∷◌, map,
  has, length, select, ltb, leb, ◌==◌, if◌then◌else◌,
}
use spane.Base.Int.{ℤ, pos, negsuc}
use spane.Base.Dict.{Dict, get, put}
use spane.Types.Json.{Value, Fields}
use spane.Types.Execution.{ExecutionResult, ExecutionState, Status}
use spane.Memory.State.{Store, Timestamped, wrap, update_access}
use spane.Memory.Cleanup.{cleanup, is_terminal, drop}

abbrev pub new_execution : ℕ → String → String → Option String → ℕ → Value → ExecutionState
new_execution now id workflow_id parent depth initial = record {
  execution_id = id;
  workflow_id = workflow_id;
  status = Status.running;
  node_results = [];
  started_at = now;
  completed_at = none;
  parent_execution_id = parent;
  depth = depth;
  initial_data = initial;
  metadata = none;
}

-- `id` is the id that the method draws. The cleanup starts at nine tenths of the limit.
unfoldable pub create_execution : ℕ → String → String → Option String → ℕ → Value → Store → Store
create_execution now id workflow_id parent depth initial s =
    let s' = record s {
      executions =
          put s.executions id (wrap now (new_execution now id workflow_id parent depth initial));
    } in
    if ltb (9 * s.config.max_executions) (10 * length s'.executions) then cleanup now s' else s'

-- `if (timestamped) { update; updateAccess }`
abbrev pub modify_found :
    ℕ
    → String
    → (ExecutionState → ExecutionState)
    → Option (Timestamped ExecutionState)
    → Store
    → Store
modify_found now id f none s = s
modify_found now id f (some t) s = record s {
  executions = put s.executions id (record t { value = f t.value; last_accessed_at = now });
}

unfoldable pub modify_execution : ℕ → String → (ExecutionState → ExecutionState) → Store → Store
modify_execution now id f s = modify_found now id f (get s.executions id) s

unfoldable pub update_node_result : ℕ → String → String → ExecutionResult → Store → Store
unfolding modify_execution
update_node_result now id node_id result =
    modify_execution now id (λ e. record e { node_results = put e.node_results node_id result })

unfoldable pub cache_node_result : ℕ → String → String → ExecutionResult → Store → Store
unfolding update_node_result
cache_node_result = update_node_result

-- the value that a read by id sees
abbrev pub value_of : {A : Type 0} → Option (Timestamped A) → Option A
value_of none = none
value_of (some t) = some t.value

unfoldable pub get_execution : ℕ → String → Store → Option ExecutionState × Store
unfolding modify_execution
get_execution now id s = (value_of (get s.executions id), modify_execution now id (λ e. e) s)

-- the loop of `getNodeResults`
unfoldable pub pick_results :
    Dict ExecutionResult → List String → Dict ExecutionResult → Dict ExecutionResult
pick_results found [] results = results
pick_results found (id ∷ ids) results =
    pick_results found ids (elim (get found id) [ none ↦ results | some r ↦ put results id r ])

abbrev pub results_of : Option ExecutionState → Dict ExecutionResult
results_of none = []
results_of (some e) = e.node_results

unfoldable pub get_node_results : ℕ → String → List String → Store → Dict ExecutionResult × Store
unfolding get_execution pick_results
get_node_results now id node_ids s =
    let (found, s') = get_execution now id s in (pick_results (results_of found) node_ids [], s')

-- a - b
abbrev pub sub_ℕ : ℕ → ℕ → ℤ
sub_ℕ a b = if leb b a then pos (a - b) else negsuc (b - a - 1)

abbrev pub pending_of : ℕ → Option ExecutionState → ℤ
pending_of total none = pos total
pending_of total (some e) = sub_ℕ total (length e.node_results)

unfoldable pub get_pending_node_count : ℕ → String → ℕ → Store → ℤ × Store
unfolding get_execution
get_pending_node_count now id total s =
    let (found, s') = get_execution now id s in (pending_of total found, s')

abbrev pub with_status : ℕ → Status → ExecutionState → ExecutionState
with_status now status e = record e {
  status = status;
  completed_at = if is_terminal status then some now else e.completed_at;
}

unfoldable pub set_execution_status : ℕ → String → Status → Store → Store
unfolding modify_execution
set_execution_status now id status = modify_execution now id (with_status now status)

unfoldable pub update_execution_metadata : ℕ → String → Option Fields → Store → Store
unfolding modify_execution
update_execution_metadata now id metadata =
    modify_execution now id (λ e. record e { metadata = metadata })

abbrev pub is_child_of : String → Option String → Bool
is_child_of id none = false
is_child_of id (some p) = p == id

-- `Array.from(map.values()).map(t => t.value)`
unfoldable pub all_values : Dict (Timestamped ExecutionState) → List ExecutionState
all_values [] = []
all_values ((id, t) ∷ rest) = t.value ∷ all_values rest

unfoldable pub get_child_executions : String → Store → List ExecutionState
unfolding all_values
get_child_executions id s =
    select (λ e. is_child_of id e.parent_execution_id) (all_values s.executions)

-- `!value.parentExecutionId` holds for "" too
abbrev pub parent_of : Option ExecutionState → Option String
parent_of none = none
parent_of (some e) = elim e.parent_execution_id [
  | none ↦ none
  | some p ↦ if p == "" then none else some p
]

unfoldable pub get_parent_execution : String → Store → Option ExecutionState
get_parent_execution id s = elim (parent_of (value_of (get s.executions id))) [
  | none ↦ none
  | some p ↦ value_of (get s.executions p)
]

-- the stable sort by `startedAt`, descending
unfoldable pub insert_by_start : ExecutionState → List ExecutionState → List ExecutionState
insert_by_start e [] = e ∷ []
insert_by_start e (f ∷ rest) =
    if leb f.started_at e.started_at then e ∷ f ∷ rest else f ∷ insert_by_start e rest

unfoldable pub sort_by_start : List ExecutionState → List ExecutionState
sort_by_start [] = []
sort_by_start (e ∷ es) = insert_by_start e (sort_by_start es)

module _ {ℓ} {A : Type ℓ} where
  abbrev pub take : ℕ → List A → List A
  take zero xs = []
  take (suc n) [] = []
  take (suc n) (x ∷ xs) = x ∷ take n xs

-- an absent or empty `workflowId` selects all
abbrev pub of_workflow : Option String → ExecutionState → Bool
of_workflow none e = true
of_workflow (some w) e = if w == "" then true else e.workflow_id == w

pub record ExecutionSummary : Type 0 where
  pub execution_id : String
  pub workflow_id : String
  pub status : Status
  pub started_at : ℕ
  pub completed_at : Option ℕ

abbrev pub summary_of : ExecutionState → ExecutionSummary
summary_of e = record {
  execution_id = e.execution_id;
  workflow_id = e.workflow_id;
  status = e.status;
  started_at = e.started_at;
  completed_at = e.completed_at;
}

unfoldable pub list_executions : Option String → ℕ → ℕ → Store → List ExecutionSummary
unfolding sort_by_start insert_by_start all_values
list_executions workflow_id limit offset s = map summary_of (
    take limit
      (drop offset (sort_by_start (select (of_workflow workflow_id) (all_values s.executions)))))

unfoldable pub get_execution_count : Option String → Store → ℕ
unfolding all_values
get_execution_count workflow_id s =
    length (select (of_workflow workflow_id) (all_values s.executions))
