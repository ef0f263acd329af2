-- ===== src/Events/Guards.antt =====
-- src/engine/event-types.ts: the type guards and isValidWorkflowEvent; src/engine/event-emitter.ts:
-- createNodeProgressEvent and createWorkflowStatusEvent. An event is the object that is sent.
use spane.Base.{
  ℕ, ◌+◌, String, ◌≡◌, refl, sym, subst, inl, inr, Bool, true, false, Bool-cases, Option, none,
  some, List, [], ◌∷◌, has, ◌==◌, ◌&&◌, if◌then◌else◌, eq_iff,
}
use spane.Base.Int.{pos}
use spane.Types.Json.{Value, undefined, null, num, str, obj, end, field, prop, get_field}
use spane.Events.{NodeStatus, WorkflowStatus}

-- `typeof value === 'string'`, `'number'`, and an object that is not null
abbrev pub is_string : Value → Bool
is_string (str s) = true
is_string _ = false

abbrev pub is_number : Value → Bool
is_number (num n) = true
is_number _ = false

abbrev pub is_object : Value → Bool
is_object (obj fs) = true
is_object _ = false

-- `value === text`
abbrev pub is_text : String → Value → Bool
is_text t (str s) = s == t
is_text t _ = false

-- `texts.includes(value)`
abbrev pub is_one_of : List String → Value → Bool
is_one_of texts (str s) = has texts s
is_one_of texts _ = false

unfoldable pub is_node_progress_event : Value → Bool
is_node_progress_event event = is_text "node:progress" (prop event "type")

unfoldable pub is_workflow_status_event : Value → Bool
is_workflow_status_event event = is_text "workflow:status" (prop event "type")

unfoldable pub is_execution_state_event : Value → Bool
is_execution_state_event event = is_text "execution:state" (prop event "type")

unfoldable pub is_error_event : Value → Bool
is_error_event event = is_text "error" (prop event "type")

abbrev pub node_statuses : List String
node_statuses = "running" ∷ "completed" ∷ "failed" ∷ "skipped" ∷ "delayed" ∷ []

abbrev pub workflow_statuses : List String
workflow_statuses = "started" ∷ "completed" ∷ "failed" ∷ "paused" ∷ "cancelled" ∷ []

abbrev pub is_valid_node_event : Value → Bool
is_valid_node_event event =
    is_number (prop event "timestamp")
    && is_string (prop event "executionId")
    && is_string (prop event "nodeId")
    && is_string (prop event "workflowId")
    && is_string (prop event "status")
    && is_one_of node_statuses (prop event "status")

abbrev pub is_valid_status_event : Value → Bool
is_valid_status_event event =
    is_number (prop event "timestamp")
    && is_string (prop event "executionId")
    && is_string (prop event "workflowId")
    && is_string (prop event "status")
    && is_one_of workflow_statuses (prop event "status")

abbrev pub is_valid_state_event : Value → Bool
is_valid_state_event event =
    is_number (prop event "timestamp")
    && is_string (prop event "executionId")
    && is_string (prop event "workflowId")
    && is_string (prop event "status")
    && is_object (prop event "nodeResults")
    && is_string (prop event "startedAt")

abbrev pub is_valid_of_type : Value → String → Bool
is_valid_of_type event type =
    if type == "node:progress"
    then is_valid_node_event event
    else if type == "workflow:status"
    then is_valid_status_event event
    else if type == "execution:state"
    then is_valid_state_event event
    else if type == "error"
    then is_string (prop event "message")
    else false

-- the switch, behind the checks of the payload and its type
abbrev pub is_valid_typed : Value → Value → Bool
is_valid_typed event (str type) = is_valid_of_type event type
is_valid_typed event _ = false

unfoldable pub is_valid_workflow_event : Value → Bool
is_valid_workflow_event (obj fs) = is_valid_typed (obj fs) (get_field fs "type")
is_valid_workflow_event _ = false

abbrev pub node_status_text : NodeStatus → String
node_status_text NodeStatus.running = "running"
node_status_text NodeStatus.completed = "completed"
node_status_text NodeStatus.failed = "failed"
node_status_text NodeStatus.skipped = "skipped"
node_status_text NodeStatus.delayed = "delayed"

abbrev pub workflow_status_text : WorkflowStatus → String
workflow_status_text WorkflowStatus.started = "started"
workflow_status_text WorkflowStatus.completed = "completed"
workflow_status_text WorkflowStatus.failed = "failed"
workflow_status_text WorkflowStatus.paused = "paused"
workflow_status_text WorkflowStatus.cancelled = "cancelled"

abbrev pub text_value : Option String → Value
text_value none = undefined
text_value (some s) = str s

unfoldable pub create_node_progress_event :
    ℕ → String → String → String → NodeStatus → Value → Option String → Value → Value
create_node_progress_event now execution_id node_id workflow_id status output error progress = obj (
    field "type" (str "node:progress") (
      field "timestamp" (num (pos now)) (
        field "executionId" (str execution_id) (
          field "nodeId" (str node_id) (
            field "workflowId" (str workflow_id) (
              field "status" (str (node_status_text status)) (
                field "data" output
                  (field "error" (text_value error) (field "progress" progress end)))))))))

unfoldable pub create_workflow_status_event :
    ℕ → String → String → WorkflowStatus → Option String → Value
create_workflow_status_event now execution_id workflow_id status error = obj (
    field "type" (str "workflow:status") (
      field "timestamp" (num (pos now)) (
        field "executionId" (str execution_id) (
          field "workflowId" (str workflow_id) (
            field "status" (str (workflow_status_text status))
              (field "error" (text_value error) end))))))

-- Every event that the two constructors of events make, whatever its parameters, is a valid event of its
-- own kind.
pub is_valid_workflow_event-create :
    (now : ℕ) (execution_id node_id workflow_id : String) (node_status : NodeStatus)
    (status : WorkflowStatus) (output progress : Value) (error : Option String)
    → (let event =
          create_node_progress_event now execution_id node_id workflow_id node_status output error
            progress in
        (is_valid_workflow_event event ≡ true) × (is_node_progress_event event ≡ true))
      × (let event = create_workflow_status_event now execution_id workflow_id status error in
          (is_valid_workflow_event event ≡ true) × (is_workflow_status_event event ≡ true))
unfolding is_valid_workflow_event create_node_progress_event create_workflow_status_event
    is_node_progress_event is_workflow_status_event prop get_field has
is_valid_workflow_event-create now e n w node_status status output progress error =
    ((node_case node_status, refl), (status_case status, refl))
  where
    node_case : (s : NodeStatus) → is_one_of node_statuses (str (node_status_text s)) ≡ true
    node_case NodeStatus.running = refl
    node_case NodeStatus.completed = refl
    node_case NodeStatus.failed = refl
    node_case NodeStatus.skipped = refl
    node_case NodeStatus.delayed = refl

    status_case :
        (s : WorkflowStatus) → is_one_of workflow_statuses (str (workflow_status_text s)) ≡ true
    status_case WorkflowStatus.started = refl
    status_case WorkflowStatus.completed = refl
    status_case WorkflowStatus.failed = refl
    status_case WorkflowStatus.paused = refl
    status_case WorkflowStatus.cancelled = refl

abbrev pub one_if : Bool → ℕ
one_if true = 1
one_if false = 0

-- how many of the kinds a type is
abbrev kinds : Value → ℕ
kinds v =
    one_if (is_text "node:progress" v)
    + one_if (is_text "workflow:status" v)
    + one_if (is_text "execution:state" v)
    + one_if (is_text "error" v)

one_kind : (type t : String) → (type == t) ≡ true → kinds (str t) ≡ 1 → kinds (str type) ≡ 1
one_kind type t e h = subst (λ u. kinds (str u) ≡ 1) (sym ((eq_iff type t).0 e)) h

typed_kind : (event v : Value) → is_valid_typed event v ≡ true → kinds v ≡ 1
typed_kind event undefined h = cc
typed_kind event null h = cc
typed_kind event (Value.bool b) h = cc
typed_kind event (num n) h = cc
typed_kind event (obj fs) h = cc
typed_kind event (str type) h = elim (Bool-cases (type == "node:progress")) [
  | inl e ↦ one_kind type "node:progress" e refl
  | inr a ↦ elim (Bool-cases (type == "workflow:status")) [
    | inl e ↦ one_kind type "workflow:status" e refl
    | inr b ↦ elim (Bool-cases (type == "execution:state")) [
      | inl e ↦ one_kind type "execution:state" e refl
      | inr c ↦ elim (Bool-cases (type == "error")) [
        | inl e ↦ one_kind type "error" e refl
        | inr d ↦ let invalid : is_valid_of_type event type ≡ false = rw (a, b, c, d) refl in cc
      ]
    ]
  ]
]

-- A valid event is an event of exactly one of the four kinds.
pub is_valid_workflow_event_kind :
    (event : Value)
    → is_valid_workflow_event event ≡ true
    → one_if (is_node_progress_event event)
        + one_if (is_workflow_status_event event)
        + one_if (is_execution_state_event event)
        + one_if (is_error_event event)
      ≡ 1
unfolding is_valid_workflow_event is_node_progress_event is_workflow_status_event
    is_execution_state_event is_error_event prop
is_valid_workflow_event_kind undefined h = cc
is_valid_workflow_event_kind null h = cc
is_valid_workflow_event_kind (Value.bool b) h = cc
is_valid_workflow_event_kind (num n) h = cc
is_valid_workflow_event_kind (str s) h = cc
is_valid_workflow_event_kind (obj fs) h = typed_kind (obj fs) (get_field fs "type") h
