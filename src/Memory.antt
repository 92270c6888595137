-- ===== src/Memory.antt =====
-- internal/memory/memory.go: the state of the in-memory provider, and its namespaces.
-- A Go map is a function; a missing key has the zero value, or `none` where the source tests for it.
-- A method takes the clock's reading `now` and returns its result with the new state. Each holds the
-- mutex from its first access to its last, so a method is one step.
pub mod Log
pub mod Mailbox
pub mod Delivery
pub mod Sending
pub mod Tasks
pub mod Events
pub mod Subscribe
pub mod Following
pub mod Numbering
pub mod Queries
pub mod LogLaws
pub mod Streaming
use hearsay.Base.{
  Bool, true, false, not, ◌&&◌, List, [], ◌∷◌, ◌++◌, Option, none, some, if◌then◌else◌,
}
use hearsay.Base.Int.{ℤ, pos}
use hearsay.Base.Text.{Text, codes, text_eq, has_prefix}
use hearsay.Provider.{
  Namespace, Message, MailboxMessage, A2aTask, A2aMessage, A2aArtifact, AuditEvent, Result, ok, err,
  namespace_exists,
}

pub record Provider (Payload : Type 0) : Type 0 where
  pub namespaces : Text → Option Namespace
  pub messages : Text → List (Message Payload)
  pub offsets : Text → ℤ
  pub mailbox_messages : Text → List MailboxMessage
  pub a2a_tasks : Text → Option (A2aTask Payload)
  pub a2a_history : Text → List (A2aMessage Payload)
  pub a2a_artifacts : Text → List (A2aArtifact Payload)
  pub audit_events : Text → List AuditEvent

abbrev pub update {ℓ} : {A : Type ℓ} → Text → A → (Text → A) → Text → A
update k v f j = if text_eq k j then v else f j

abbrev pub is_some {ℓ} : {A : Type ℓ} → Option A → Bool
is_some none = false
is_some (some a) = true

-- The key of a task: namespace + "/" + id.
abbrev pub task_key : Text → Text → Text
task_key namespace id = namespace ++ (codes "/" ++ id)

-- `len(k) > len(prefix) && k[:len(prefix)] == prefix`.
unfoldable pub is_below : Text → Text → Bool
is_below prefix k = has_prefix k prefix && not (text_eq k prefix)

module _ {Payload : Type 0} where
  unfoldable pub new : Provider Payload
  new = record {
    namespaces = λ k. none;
    messages = λ k. [];
    offsets = λ k. pos 0;
    mailbox_messages = λ k. [];
    a2a_tasks = λ k. none;
    a2a_history = λ k. [];
    a2a_artifacts = λ k. [];
    audit_events = λ k. [];
  }

  unfoldable pub create_namespace :
      Namespace → Provider Payload → Result (Unit {0}) × Provider Payload
  create_namespace ns p =
      if is_some (p.namespaces ns.id) then (err (namespace_exists ns.id), p) else (
        ok tt,
        record p {
          namespaces = update ns.id (some ns) p.namespaces;
          messages = update ns.id [] p.messages;
          offsets = update ns.id (pos 0) p.offsets;
        },
      )

  -- The loop over the keys of `a2aTasks` deletes the tasks, histories and artifacts whose key is
  -- that of a task and begins with the namespace and a slash.
  unfoldable pub delete_namespace : Text → Provider Payload → Result (Unit {0}) × Provider Payload
  delete_namespace ns p =
      let dropped = λ (k : Text). is_below (ns ++ codes "/") k && is_some (p.a2a_tasks k) in
      (
        ok tt,
        record p {
          namespaces = update ns none p.namespaces;
          messages = update ns [] p.messages;
          offsets = update ns (pos 0) p.offsets;
          mailbox_messages = update ns [] p.mailbox_messages;
          a2a_tasks = λ k. if dropped k then none else p.a2a_tasks k;
          a2a_history = λ k. if dropped k then [] else p.a2a_history k;
          a2a_artifacts = λ k. if dropped k then [] else p.a2a_artifacts k;
        },
      )

  unfoldable pub append_audit :
      Text → List AuditEvent → Provider Payload → Result (Unit {0}) × Provider Payload
  append_audit ns events p =
      (ok tt, record p { audit_events = update ns (p.audit_events ns ++ events) p.audit_events })
