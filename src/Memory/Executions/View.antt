-- ===== src/Memory/Executions/View.antt =====
-- src/db/inmemory-store.ts: the store as a function from ids to executions.
use spane.Base.{
  ℕ, String, ◌≡◌, refl, true, inl, inr, Option, none, some, List, [], ◌∷◌, has, Option-cases, arith,
  ◌==◌, eq_iff, eq_refl, if◌then◌else◌,
}
use spane.Base.Dict.{Dict, get, put, get-put}
use spane.Types.Execution.{ExecutionResult, ExecutionState}
use spane.Memory.State.{Store}
use spane.Memory.Executions.{
  value_of, modify_execution, update_node_result, get_execution, pick_results, get_node_results,
  results_of,
}

-- The store as its clients see it.
unfoldable pub view : Store → String → Option ExecutionState
view s id = value_of (get s.executions id)

abbrev pub update_view :
    (ExecutionState → ExecutionState) → Option ExecutionState → Option ExecutionState
update_view f none = none
update_view f (some e) = some (f e)

-- A modification changes the view at its id and nowhere else.
pub view-modify_execution :
    (now : ℕ) (id : String) (f : ExecutionState → ExecutionState) (s : Store) (j : String)
    → view (modify_execution now id f s) j
      ≡ (if id == j then update_view f (view s id) else view s j)
unfolding view modify_execution
view-modify_execution now id f s j = elim (Option-cases (get s.executions id)) [
  | inl e ↦ rw e (ground (arith, eq_iff id j))
  | inr (t, e) ↦ rw (e, get-put) (ground arith)
]

-- Reading changes no view.
pub view-get_execution :
    (now : ℕ) (id : String) (s : Store) (j : String) → view (get_execution now id s).1 j ≡ view s j
unfolding get_execution
view-get_execution now id s j =
    ground (arith, view-modify_execution now id (λ e. e) s j, eq_iff id j, Option-cases (view s id))

pick_results_lem :
    (found : Dict ExecutionResult) (ids : List String) (results : Dict ExecutionResult) (j : String)
    → get (pick_results found ids results) j ≡ (
        if has ids j
        then elim (get found j) [ none ↦ get results j | some r ↦ some r ]
        else get results j)
unfolding pick_results has
pick_results_lem found [] results j = refl
pick_results_lem found (id ∷ ids) results j = elim (Option-cases (get found id)) [
  | inl e ↦
      rw (e, pick_results) (ground (arith, pick_results_lem found ids results j, eq_iff id j, e))
  | inr (r, e) ↦
      rw (e, pick_results)
        (ground (
          arith,
          pick_results_lem found ids (put results id r) j,
          get-put results id r j,
          eq_iff id j,
          e,
        ))
]

pick_results_fresh :
    (found : Dict ExecutionResult) (ids : List String) (j : String)
    → get (pick_results found ids []) j ≡ (if has ids j then get found j else none)
unfolding get
pick_results_fresh found ids j = elim (Option-cases (get found j)) [
  | inl e ↦ ground (arith, pick_results_lem found ids [] j, e)
  | inr (r, e) ↦ ground (arith, pick_results_lem found ids [] j, e)
]

-- getNodeResults returns the stored results of exactly the nodes that it is asked for.
pub get-get_node_results :
    (now : ℕ) (id : String) (node_ids : List String) (s : Store) (j : String)
    → get (get_node_results now id node_ids s).0 j
      ≡ (if has node_ids j then get (results_of (view s id)) j else none)
unfolding get_node_results view
get-get_node_results now id node_ids s j =
    pick_results_fresh (results_of (value_of (get s.executions id))) node_ids j

-- A result that was stored is read back, for an execution that exists and a node that is asked for.
pub get_node_results-update_node_result :
    (now : ℕ) (id node_id : String) (result : ExecutionResult) (s : Store) (e : ExecutionState)
    (node_ids : List String)
    → view s id ≡ some e
    → has node_ids node_id ≡ true
    → get (get_node_results now id node_ids (update_node_result now id node_id result s)).0 node_id
      ≡ some result
unfolding update_node_result
get_node_results-update_node_result now id node_id result s e node_ids found asked =
    rw get-get_node_results
      (rw (asked, view-modify_execution, eq_refl, found) (rw (get-put, eq_refl)))
