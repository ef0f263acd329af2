-- ===== src/Engine/Completion/Locked.antt =====
-- src/engine/handlers/child-enqueue-handler.ts: checkWorkflowCompletion while it holds the lock.
use spane.Base.{
  ℕ, String, ◌≡◌, refl, sym, ◌∙◌, subst, inl, inr, Bool, true, false, not, ◌&&◌, Bool-cases, Option,
  none, some, List, [], ◌∷◌, ◌++◌, append-nil, length, eqb, arith, ◌==◌, eq_iff, if◌then◌else◌,
}
use spane.Types.Workflow.{WorkflowDefinition}
use spane.Types.Execution.{ExecutionState, Status}
use spane.Memory.Executions.{
  sub_ℕ, pending_of, with_status, get_execution, get_pending_node_count, set_execution_status,
}
use spane.Memory.Executions.View.{view, update_view, view-modify_execution, view-get_execution}
use spane.Events.{ProgressPayload, workflow_progress, WorkflowStatus}
use spane.Engine.World.{
  World, Call, Job, progress, acquired, released, emit_if, read_execution, read_pending,
}
use spane.Engine.Completion.{is_zero, is_settled, complete_if, complete_when_done, check_locked}

-- the statuses from which an execution can be completed
abbrev pub is_open : Status → Bool
is_open Status.running = true
is_open Status.paused = true
is_open Status.failed = false
is_open Status.cancelled = false
is_open Status.completed = false

-- an execution that is still open and has as many results as its workflow has nodes
abbrev pub is_done : WorkflowDefinition → Option ExecutionState → Bool
is_done workflow none = false
is_done workflow (some e) = is_open e.status && eqb (length e.node_results) (length workflow.nodes)

-- the same for a workflow that is known, under a lock that is obtained
abbrev pub completes : Option WorkflowDefinition → Option String → Option ExecutionState → Bool
completes none token found = false
completes (some workflow) none found = false
completes (some workflow) (some token) found = is_done workflow found

abbrev pub completed_view : Bool → ℕ → Option ExecutionState → Option ExecutionState
completed_view true now found = update_view (with_status now Status.completed) found
completed_view false now found = found

-- what is told the job, if there is one
abbrev pub announcement : Option Job → ProgressPayload → Bool → List Call
announcement none p b = []
announcement (some job) p true = progress p ∷ []
announcement (some job) p false = []

abbrev pub lock_calls : String → Option WorkflowDefinition → Option String → List Call → List Call
lock_calls key none token told = []
lock_calls key (some workflow) none told = acquired key ∷ []
lock_calls key (some workflow) (some token) told = acquired key ∷ told ++ released key token ∷ []

is_open-settled : (s : Status) → is_open s ≡ not (is_settled s)
is_open-settled Status.running = refl
is_open-settled Status.paused = refl
is_open-settled Status.failed = refl
is_open-settled Status.cancelled = refl
is_open-settled Status.completed = refl

is_zero-sub_ℕ : (a b : ℕ) → is_zero (sub_ℕ a b) ≡ eqb b a
is_zero-sub_ℕ a b = ground arith

module _ (execution_id workflow_id : String) (job : Option Job) where
  abbrev pub message : ℕ → ProgressPayload
  message now = workflow_progress now workflow_id execution_id WorkflowStatus.completed none

  -- how the body of the lock changes the world if it completes the execution, and if it does not
  pub record Checked (b : Bool) (w w' : World) : Type 0 where
    pub views :
        (j : String)
        → view w'.store j ≡ (
            if execution_id == j
            then completed_view b w.now (view w.store execution_id)
            else view w.store j)
    pub calls : w'.calls ≡ w.calls ++ announcement job (message w.now) b
    pub clock : w'.now ≡ w.now

  same_views :
      (w : World) (j : String)
      → view w.store j ≡ (if execution_id == j then view w.store execution_id else view w.store j)
  same_views w j = ground (arith, eq_iff execution_id j)

  no_calls : (w : World) (now : ℕ) → w.calls ≡ w.calls ++ announcement job (message now) false
  no_calls w now = elim job as (λ o. w.calls ≡ w.calls ++ announcement o (message now) false) [
    | none ↦ sym (append-nil w.calls)
    | some j ↦ sym (append-nil w.calls)
  ]

  emit_if-calls :
      (w : World) (o : Option Job) (p : ProgressPayload)
      → (emit_if o p w).calls ≡ w.calls ++ announcement o p true
  emit_if-calls w none p = sym (append-nil w.calls)
  emit_if-calls w (some j) p = refl

  emit_if-store :
      (w : World) (o : Option Job) (p : ProgressPayload) → (emit_if o p w).store ≡ w.store
  emit_if-store w none p = refl
  emit_if-store w (some j) p = refl

  emit_if-now : (w : World) (o : Option Job) (p : ProgressPayload) → (emit_if o p w).now ≡ w.now
  emit_if-now w none p = refl
  emit_if-now w (some j) p = refl

  -- a world that reads alike, at the same time and after the same calls
  record Alike (w v : World) : Type 0 where
    views : (j : String) → view v.store j ≡ view w.store j
    calls : v.calls ≡ w.calls
    clock : v.now ≡ w.now

  complete_if-Checked :
      (b : Bool) (w v : World)
      → Alike w v
      → Checked b w (complete_if execution_id workflow_id job b v)
  unfolding complete_if set_execution_status
  complete_if-Checked false w v a = record {
    views = λ j. a.views j ∙ same_views w j;
    calls = a.calls ∙ no_calls w w.now;
    clock = a.clock;
  }
  complete_if-Checked true w v a = record {
    views = λ j.
        rw (emit_if-store, view-modify_execution, a.views j, a.views execution_id, a.clock) refl;
    calls = rw (emit_if-calls, a.calls, a.clock) refl;
    clock = rw (emit_if-now, a.clock) refl;
  }

  read_execution-Alike : (w : World) → Alike w (read_execution execution_id w).1
  read_execution-Alike w = record {
    views = view-get_execution w.now execution_id w.store;
    calls = refl;
    clock = refl;
  }

  read_pending-Alike :
      (w v : World) (total : ℕ) → Alike w v → Alike w (read_pending execution_id total v).1
  unfolding get_pending_node_count
  read_pending-Alike w v total a = record {
    views = λ j. view-get_execution v.now execution_id v.store j ∙ a.views j;
    calls = a.calls;
    clock = a.clock;
  }

  pending_of-read :
      (v : World) (total : ℕ)
      → (read_pending execution_id total v).0 ≡ pending_of total (view v.store execution_id)
  unfolding get_pending_node_count get_execution view
  pending_of-read v total = refl

  left : (w v : World) → Alike w v → Checked false w v
  unfolding complete_if
  left w v a = complete_if-Checked false w v a

  complete_when_done-Checked :
      (workflow : WorkflowDefinition) (w v : World) (e : ExecutionState)
      → Alike w v
      → view w.store execution_id ≡ some e
      → Checked
          (eqb (length e.node_results) (length workflow.nodes))
          w
          (complete_when_done execution_id workflow_id job workflow v)
  unfolding complete_when_done
  complete_when_done-Checked workflow w v e a found =
      subst (λ b. Checked b w (complete_when_done execution_id workflow_id job workflow v)) test
        (complete_if-Checked _ w _ (read_pending-Alike w v (length workflow.nodes) a))
    where
      test :
          is_zero (read_pending execution_id (length workflow.nodes) v).0
          ≡ eqb (length e.node_results) (length workflow.nodes)
      test =
          rw (pending_of-read, a.views execution_id, found)
            (is_zero-sub_ℕ (length workflow.nodes) (length e.node_results))

  pub check_found-Checked :
      (workflow : WorkflowDefinition) (w : World) (found : Option ExecutionState)
      → view w.store execution_id ≡ found
      → Checked (is_done workflow found) w (check_locked execution_id workflow_id job workflow w)
  unfolding check_locked get_execution view
  check_found-Checked workflow w none e = rw (e, check_locked) (left w _ (read_execution-Alike w))
  check_found-Checked workflow w (some x) e = elim (Bool-cases (is_settled x.status)) [
    | inl s ↦ rw (e, is_open-settled, s, check_locked) (left w _ (read_execution-Alike w))
    | inr s ↦
        rw (e, is_open-settled, s, check_locked)
          (complete_when_done-Checked workflow w _ x (read_execution-Alike w) e)
  ]
