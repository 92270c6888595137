-- ===== src/Provider.antt =====
-- pkg/hearsay/provider.go: messages, query options and events, and the JSON payloads of messages.
-- A payload is opaque: `Json` stands for the calls of encoding/json that the source makes on it.
use hearsay.Base.{◌≡◌, refl, ◌⊎◌, inl, inr, Bool, true, false, List, Option}
use hearsay.Base.Int.{ℤ, Time}
use hearsay.Base.Text.{Text, codes, text_eq}
use hearsay.Claims.{Claim, Outcome}

-- `MessageType` is a Go string: the constants of provider.go and mailbox.go, and any other text.
pub data MessageType : Type 0 where
  msg_claim msg_heartbeat msg_release msg_transfer msg_escalate msg_intent : MessageType
  msg_mailbox_send msg_mailbox_read msg_mailbox_archive : MessageType
  msg_other : Text → MessageType

unfoldable pub type_eq : MessageType → MessageType → Bool
type_eq msg_claim msg_claim = true
type_eq msg_heartbeat msg_heartbeat = true
type_eq msg_release msg_release = true
type_eq msg_transfer msg_transfer = true
type_eq msg_escalate msg_escalate = true
type_eq msg_intent msg_intent = true
type_eq msg_mailbox_send msg_mailbox_send = true
type_eq msg_mailbox_read msg_mailbox_read = true
type_eq msg_mailbox_archive msg_mailbox_archive = true
type_eq (msg_other a) (msg_other b) = text_eq a b
type_eq _ _ = false

pub data EventType : Type 0 where
  event_claim event_release event_heartbeat event_mailbox : EventType
  event_other : MessageType → EventType

pub record Namespace : Type 0 where
  pub id : Text
  pub created_at : Time

-- Offsets are `int64`.
pub record Message (Payload : Type 0) : Type 0 where
  pub offset : ℤ
  pub type : MessageType
  pub namespace : Text
  pub agent_id : Text
  pub payload : Payload
  pub timestamp : Time

pub record QueryOpts : Type 0 where
  pub since : ℤ
  pub types : List MessageType
  pub agent_id : Text
  pub limit : ℤ

pub record Event (Payload : Type 0) : Type 0 where
  pub seq : ℤ
  pub type : EventType
  pub payload : Payload
  pub timestamp : Time

pub record AgentState : Type 0 where
  pub agent_id : Text
  pub active_claims : List Text
  pub last_seen : Time

-- `json.Marshal` of a claim and of the maps that the client sends, and `json.Unmarshal` of a payload
-- into a claim and into a struct with the one field `claim_id`; `none` is a decoding error.
pub record Json (Payload : Type 0) : Type 0 where
  pub decode_claim : Payload → Option Claim
  pub decode_claim_id : Payload → Option Text
  pub encode_claim : Claim → Payload
  pub encode_release : Text → Outcome → Time → Payload
  pub encode_heartbeat : Text → Time → Payload
  pub encode_transfer : Text → Text → Time → Payload
  pub encode_intent : Text → Text → Time → Payload

-- pkg/hearsay/mailbox.go: the types of mailbox messages.
pub data MailboxType : Type 0 where
  yield_request yield_ack escalation all_clear note ping : MailboxType
  mailbox_other : Text → MailboxType

unfoldable pub is_valid_mailbox_type : MailboxType → Bool
is_valid_mailbox_type (mailbox_other t) = false
is_valid_mailbox_type _ = true

abbrev pub mailbox_to_broadcast : Text
mailbox_to_broadcast = codes "broadcast"

pub record MailboxMessage : Type 0 where
  pub message_id : Text
  pub from : Text
  pub to : Text
  pub type : MailboxType
  pub content : Text
  pub related_claim_id : Text
  pub read : Bool
  pub archived : Bool
  pub created_at : Time
  pub expires_at : Time

pub record MailboxQueryOpts : Type 0 where
  pub unread : Bool
  pub include_claims : Bool
  pub limit : ℤ

-- The state of an A2A task: a Go string with seven constants (internal/a2a/task.go).
pub data TaskState : Type 0 where
  task_submitted task_working task_input_required task_completed : TaskState
  task_failed task_canceled task_unknown : TaskState
  task_other : Text → TaskState

pub record A2aTask (Payload : Type 0) : Type 0 where
  pub id : Text
  pub session_id : Text
  pub state : TaskState
  pub status_msg : Payload
  pub status_time : Time
  pub claim_id : Text
  pub namespace : Text
  pub metadata : Payload
  pub created_at : Time

pub record A2aMessage (Payload : Type 0) : Type 0 where
  pub role : Text
  pub parts : Payload

pub record A2aArtifact (Payload : Type 0) : Type 0 where
  pub name : Text
  pub description : Text
  pub parts : Payload
  pub index : ℤ
  pub append : Bool
  pub last_chunk : Bool

-- pkg/hearsay/audit.go: an audit event.
pub record AuditEvent : Type 0 where
  pub namespace : Text
  pub timestamp : Time
  pub level : Text
  pub event_type : Text
  pub agent_id : Text
  pub resource_uri : Text
  pub outcome : Text
  pub metadata : Text

pub data Error : Type 0 where
  namespace_exists message_not_found task_exists task_not_found : Text → Error
  provider_failure constraint_failed no_rows : Error

pub data Result {ℓ} (A : Type ℓ) : Type ℓ where
  ok : A → Result A
  err : Error → Result A

pub Result-cases :
    {A : Type 0} (r : Result A) → ((a : A) × (r ≡ ok a)) ⊎ ((e : Error) × (r ≡ err e))
Result-cases (ok a) = inl (a, refl)
Result-cases (err e) = inr (e, refl)

-- What the client uses of the interface `Provider`, over the provider's state `S`. The first
-- argument of an operation is the clock's reading.
pub record LogProvider (Payload S : Type 0) : Type 0 where
  pub append : Time → Text → List (Message Payload) → S → Result (Unit {0}) × S
  pub query : Text → QueryOpts → S → Result (List (Message Payload))
  pub active_claims : Time → Text → Text → S → Result (List Claim)
