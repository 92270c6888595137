-- ===== src/Sqlite.antt =====
-- internal/sqlite/sqlite.go: the tables of the provider, its namespaces and its audit events.
-- A column that the provider reads back holds what it wrote. `refuses` and the numbers of the
-- statements are those of module Sql.
pub mod Log
pub mod Tasks
pub mod Mailbox
pub mod Events
pub mod Appending
pub mod Refining
pub mod Simulation
pub mod Reading
pub mod Claims
pub mod Storing
pub mod Expiring
use hearsay.Base.{ℕ, suc, Bool, ◌&&◌, List, [], ◌∷◌, ◌++◌, Option, any}
use hearsay.Base.Int.{ℤ, Time}
use hearsay.Base.Text.{Text, text_eq}
use hearsay.Provider.{
  Namespace, MessageType, MailboxMessage, A2aTask, A2aMessage, A2aArtifact, AuditEvent, Result, ok,
  err,
}
use hearsay.Sql.{Session, ◌>>=◌, ◌>>◌, pure, statement, replaced, in_tx, insert_row, delete_where}

-- A row of the table `messages`. `seq` is NULL in the rows of before its migration.
pub record Row (Payload : Type 0) : Type 0 where
  pub namespace : Text
  pub offset : ℤ
  pub seq : Option ℤ
  pub type : MessageType
  pub agent_id : Text
  pub payload : Payload
  pub timestamp : Time

pub record MailRow : Type 0 where
  pub namespace : Text
  pub message : MailboxMessage

pub record HistoryRow (Payload : Type 0) : Type 0 where
  pub task_id : Text
  pub seq : ℤ
  pub message : A2aMessage Payload

pub record ArtifactRow (Payload : Type 0) : Type 0 where
  pub task_id : Text
  pub artifact : A2aArtifact Payload

pub record Tables (Payload : Type 0) : Type 0 where
  pub namespaces : List Namespace
  pub messages : List (Row Payload)
  pub mailbox_messages : List MailRow
  pub a2a_tasks : List (A2aTask Payload)
  pub a2a_task_history : List (HistoryRow Payload)
  pub a2a_artifacts : List (ArtifactRow Payload)
  pub audit_events : List AuditEvent

-- The tables that `migrate` makes in an empty database.
unfoldable pub migrated : {Payload : Type 0} → Tables Payload
migrated = record {
  namespaces = [];
  messages = [];
  mailbox_messages = [];
  a2a_tasks = [];
  a2a_task_history = [];
  a2a_artifacts = [];
  audit_events = [];
}

module _ {Payload : Type 0} where
  -- `task_id IN (SELECT id FROM a2a_tasks WHERE namespace = ?)`.
  abbrev pub owns : Text → Tables Payload → Text → Bool
  owns ns t id =
      any (λ (task : A2aTask Payload). text_eq task.namespace ns && text_eq task.id id) t.a2a_tasks

  abbrev pub changes : (Tables Payload → Tables Payload) → Session (Tables Payload) (Unit {0})
  changes f t = (ok tt, f t)

module _ {Payload : Type 0} (refuses : ℕ → Bool) where
  abbrev with_namespaces : Tables Payload → Result (List Namespace) → Result (Tables Payload)
  with_namespaces t (ok rows) = ok (record t { namespaces = rows })
  with_namespaces t (err e) = err e

  unfoldable pub create_namespace : Namespace → Session (Tables Payload) (Unit {0})
  create_namespace ns =
      statement refuses 0 (λ t.
        replaced t (with_namespaces t (insert_row (λ a b. text_eq a.id b.id) ns t.namespaces)))

  -- The loop of `AppendAudit`, each event a statement of its own.
  unfoldable pub append_audit_from :
      ℕ → Text → List AuditEvent → Session (Tables Payload) (Unit {0})
  append_audit_from n ns [] = pure tt
  append_audit_from n ns (e ∷ events) = do
    statement refuses n (λ t.
        (ok tt, record t { audit_events = t.audit_events ++ (record e { namespace = ns } ∷ []) }))
    append_audit_from (suc n) ns events

  unfoldable pub append_audit : Text → List AuditEvent → Session (Tables Payload) (Unit {0})
  append_audit ns events = append_audit_from 0 ns events

  unfoldable pub delete_namespace : Text → Session (Tables Payload) (Unit {0})
  delete_namespace ns = in_tx refuses (do
    statement refuses 1 (
        changes (λ t. record t {
          a2a_task_history =
              delete_where (λ (h : HistoryRow Payload). owns ns t h.task_id) t.a2a_task_history;
        }))
    statement refuses 2 (
        changes (λ t. record t {
          a2a_artifacts =
              delete_where (λ (a : ArtifactRow Payload). owns ns t a.task_id) t.a2a_artifacts;
        }))
    statement refuses 3 (
        changes (λ t. record t {
          a2a_tasks =
              delete_where (λ (task : A2aTask Payload). text_eq task.namespace ns) t.a2a_tasks;
        }))
    statement refuses 4 (
        changes (λ t. record t {
          messages = delete_where (λ (m : Row Payload). text_eq m.namespace ns) t.messages;
        }))
    statement refuses 5 (
        changes (λ t. record t {
          mailbox_messages =
              delete_where (λ (m : MailRow). text_eq m.namespace ns) t.mailbox_messages;
        }))
    statement refuses 6 (
        changes (λ t. record t {
          audit_events = delete_where (λ (e : AuditEvent). text_eq e.namespace ns) t.audit_events;
        }))
    statement refuses 7 (
        changes (λ t. record t {
          namespaces = delete_where (λ (n : Namespace). text_eq n.id ns) t.namespaces;
        }))
    pure 8)
