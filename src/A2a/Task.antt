-- ===== src/A2a/Task.antt =====
-- internal/a2a/task.go and rpc.go: tasks, their states and storage, and the JSON-RPC errors.
use hearsay.Base.{Bool, true, false, List, [], ◌∷◌, Option, none, some, any, if◌then◌else◌}
use hearsay.Base.Int.{ℤ, negsuc, Time}
use hearsay.Base.Text.{Text, text_eq}
use hearsay.Claims.{ConflictReport, Operation}
use hearsay.Provider.{
  TaskState, task_submitted, task_working, task_input_required, task_completed, task_failed,
  task_canceled, task_unknown, task_other, A2aTask, MailboxMessage, Error,
}

-- `data` is `none` for a part without data (an empty raw message).
pub record Part (Payload : Type 0) : Type 0 where
  pub type : Text
  pub text : Text
  pub content : Option Payload

pub record Message (Payload : Type 0) : Type 0 where
  pub role : Text
  pub parts : List (Part Payload)

pub record Artifact (Payload : Type 0) : Type 0 where
  pub name : Text
  pub description : Text
  pub parts : List (Part Payload)
  pub index : ℤ
  pub append : Bool
  pub last_chunk : Bool

pub record Task (Payload : Type 0) : Type 0 where
  pub id : Text
  pub session_id : Text
  pub state : TaskState
  pub status_message : Option (Message Payload)
  pub status_time : Time
  pub artifacts : List (Artifact Payload)
  pub metadata : Payload
  pub claim_id : Text
  pub namespace : Text

pub record SkillParams : Type 0 where
  pub skill_id : Text
  pub resource_uri : Text
  pub operation : Operation
  pub intent : Text
  pub agent_id : Text
  pub ttl_seconds : ℤ
  pub claim_id : Text
  pub outcome : Text
  pub to : Text
  pub msg_type : Text
  pub content : Text
  pub related_claim_id : Text
  pub unread_only : Bool

-- The calls of encoding/json that the package makes; `none` is a decoding error.
pub record A2aJson (Payload : Type 0) : Type 0 where
  pub decode_params : Payload → Option SkillParams
  pub encode_message : Message Payload → Payload
  pub encode_status : Option (Message Payload) → Payload
  pub decode_status : Payload → Option (Message Payload)
  pub encode_parts : List (Part Payload) → Payload
  pub decode_parts : Payload → List (Part Payload)
  pub encode_report : ConflictReport → Payload
  pub encode_granted : Text → Payload
  pub encode_mailbox : List MailboxMessage → Payload
  pub encode_sent : Text → Payload
  pub empty_object : Payload

-- The errors that the handlers build, without their texts.
pub data RpcError : Type 0 where
  invalid_params missing_id no_such_task : RpcError
  failed_to_store : Error → RpcError
  transition_failed : RpcError
  terminal_state : TaskState → RpcError
  conflict_detected : ConflictReport → RpcError
  skill_failed : RpcError
  task_cancelled streaming_unsupported unsupported_runtime : RpcError

unfoldable pub error_code : RpcError → ℤ
error_code invalid_params = negsuc 32601
error_code missing_id = negsuc 32601
error_code no_such_task = negsuc 31999
error_code (failed_to_store e) = negsuc 32002
error_code transition_failed = negsuc 32002
error_code (terminal_state s) = negsuc 32000
error_code (conflict_detected r) = negsuc 32001
error_code skill_failed = negsuc 32002
error_code task_cancelled = negsuc 32002
error_code streaming_unsupported = negsuc 32002
error_code unsupported_runtime = negsuc 32003

unfoldable pub state_eq : TaskState → TaskState → Bool
state_eq task_submitted task_submitted = true
state_eq task_working task_working = true
state_eq task_input_required task_input_required = true
state_eq task_completed task_completed = true
state_eq task_failed task_failed = true
state_eq task_canceled task_canceled = true
state_eq task_unknown task_unknown = true
state_eq (task_other a) (task_other b) = text_eq a b
state_eq _ _ = false

-- The table of `Transition`; `none` is a state that it does not list.
unfoldable pub allowed_from : TaskState → Option (List TaskState)
allowed_from task_submitted =
    some (task_working ∷ task_input_required ∷ task_failed ∷ task_canceled ∷ [])
allowed_from task_working =
    some (task_input_required ∷ task_completed ∷ task_failed ∷ task_canceled ∷ [])
allowed_from task_input_required = some (task_working ∷ task_canceled ∷ [])
allowed_from _ = none

abbrev pub is_listed_in : TaskState → Option (List TaskState) → Bool
is_listed_in to none = false
is_listed_in to (some states) = any (λ s. state_eq s to) states

module _ {Payload : Type 0} where
  -- The Boolean is false where `Transition` returns one of its two errors.
  unfoldable pub transition : Time → TaskState → Task Payload → Bool × Task Payload
  transition now to t =
      if is_listed_in to (allowed_from t.state)
      then (true, record t { state = to; status_time = now })
      else (false, t)

  unfoldable pub new_task : A2aJson Payload → Time → Text → Text → Text → Task Payload
  new_task json now id session_id namespace = record {
    id = id;
    session_id = session_id;
    state = task_submitted;
    status_message = none;
    status_time = now;
    artifacts = [];
    metadata = json.empty_object;
    claim_id = [];
    namespace = namespace;
  }

  unfoldable pub task_to_storage : A2aJson Payload → Time → Task Payload → A2aTask Payload
  task_to_storage json now t = record {
    id = t.id;
    session_id = t.session_id;
    state = t.state;
    status_msg = json.encode_status t.status_message;
    status_time = t.status_time;
    claim_id = t.claim_id;
    namespace = t.namespace;
    metadata = t.metadata;
    created_at = now;
  }

  unfoldable pub storage_to_task : A2aJson Payload → A2aTask Payload → Task Payload
  storage_to_task json st = record {
    id = st.id;
    session_id = st.session_id;
    state = st.state;
    status_message = json.decode_status st.status_msg;
    status_time = st.status_time;
    artifacts = [];
    metadata = st.metadata;
    claim_id = st.claim_id;
    namespace = st.namespace;
  }
