-- ===== src/Postgres/Storage.antt =====
-- internal/postgres/postgres.go: mailboxes, tasks and streams. The statements are those of the SQLite
-- provider; only a stream of messages runs on the query of this one.
use hearsay.Base.{ℕ, Bool, true, false, List, [], ◌∷◌, Option, if◌then◌else◌}
use hearsay.Base.Int.{ℤ, Time}
use hearsay.Base.Text.{Text}
use hearsay.Provider.{
  Message, MailboxMessage, MailboxQueryOpts, A2aTask, A2aMessage, A2aArtifact, Result, ok, err,
}
use hearsay.Memory.Events.{Stream}
use hearsay.Memory.Subscribe.{Subscription, since_offset, deliver}
use hearsay.Sql.{Session}
use hearsay.Sqlite.Mailbox
use hearsay.Sqlite.Tasks
use hearsay.Sqlite.Events
use hearsay.Postgres.{Database, on_tables, query}

module _ {Payload : Type 0} (refuses : ℕ → Bool) where
  unfoldable pub send_message : Time → Text → MailboxMessage → Session (Database Payload) (Unit {0})
  send_message now ns msg = on_tables (Mailbox.send_message refuses now ns msg)

  unfoldable pub get_mailbox :
      (List MailboxMessage → List MailboxMessage)
      → Time
      → Text
      → Text
      → MailboxQueryOpts
      → Database Payload
      → Result (List MailboxMessage)
  get_mailbox by_latest now ns agent opts d =
      Mailbox.get_mailbox refuses by_latest now ns agent opts d.tables

  unfoldable pub mark_read : Text → Text → Session (Database Payload) (Unit {0})
  mark_read ns id = on_tables (Mailbox.mark_read refuses ns id)

  unfoldable pub archive_message : Text → Text → Session (Database Payload) (Unit {0})
  archive_message ns id = on_tables (Mailbox.archive_message refuses ns id)

  unfoldable pub expire_messages : Text → Time → Session (Database Payload) (Unit {0})
  expire_messages ns before = on_tables (Mailbox.expire_messages refuses ns before)

  unfoldable pub create_task : Text → A2aTask Payload → Session (Database Payload) (Unit {0})
  create_task ns task = on_tables (Tasks.create_task refuses ns task)

  unfoldable pub get_task : Text → Text → Database Payload → Result (A2aTask Payload)
  get_task ns id d = Tasks.get_task refuses ns id d.tables

  unfoldable pub update_task : Text → A2aTask Payload → Session (Database Payload) (Unit {0})
  update_task ns task = on_tables (Tasks.update_task refuses ns task)

  unfoldable pub append_task_history :
      Text → Text → ℤ → A2aMessage Payload → Session (Database Payload) (Unit {0})
  append_task_history ns id seq msg = on_tables (Tasks.append_task_history refuses ns id seq msg)

  unfoldable pub get_task_history :
      Text → Text → ℤ → Database Payload → Result (List (A2aMessage Payload))
  get_task_history ns id limit d = Tasks.get_task_history refuses ns id limit d.tables

  unfoldable pub create_artifact :
      Text → Text → A2aArtifact Payload → Session (Database Payload) (Unit {0})
  create_artifact ns id art = on_tables (Tasks.create_artifact refuses ns id art)

  unfoldable pub get_artifacts :
      (List (A2aArtifact Payload) → List (A2aArtifact Payload))
      → Text
      → Text
      → Database Payload
      → Result (List (A2aArtifact Payload))
  get_artifacts by_name ns id d = Tasks.get_artifacts refuses by_name ns id d.tables

-- The log as a round finds it.
abbrev pub Snapshot : Type 0 → Type 0
Snapshot Payload = (ℕ → Bool) × Database Payload

module _ {Payload : Type 0} where
  abbrev deliver_found :
      Option ℕ → Result (List (Message Payload)) → Subscription Payload → Subscription Payload
  deliver_found room (ok msgs) st = deliver room msgs st
  deliver_found room (err e) st = record st { live = false }

  unfoldable pub subscribe_round :
      Text → Option ℕ → Snapshot Payload → Subscription Payload → Subscription Payload
  subscribe_round ns room (refuses, d) st =
      deliver_found room (query refuses ns (since_offset st.from) d) st

  unfoldable pub run_rounds :
      Text → List (Option ℕ × Snapshot Payload) → Subscription Payload → Subscription Payload
  run_rounds ns [] st = st
  run_rounds ns ((room, snap) ∷ rounds) st =
      run_rounds ns rounds (if st.live then subscribe_round ns room snap st else st)

  unfoldable pub subscribe : Text → ℤ → List (Option ℕ × Snapshot Payload) → Subscription Payload
  subscribe ns from rounds =
      run_rounds ns rounds (record { from = from; received = []; live = true })

  abbrev tables_of : Snapshot Payload → Events.Snapshot Payload
  tables_of (refuses, d) = (refuses, d.tables)

  abbrev tables_of_rounds :
      List (Option ℕ × Snapshot Payload) → List (Option ℕ × Events.Snapshot Payload)
  tables_of_rounds [] = []
  tables_of_rounds ((room, snap) ∷ rounds) = (room, tables_of snap) ∷ tables_of_rounds rounds

  unfoldable pub subscribe_events :
      Text → ℤ → Option ℕ × Snapshot Payload → List (Option ℕ × Snapshot Payload) → Stream Payload
  subscribe_events ns since (room, snap) rounds =
      Events.subscribe_events ns since (room, tables_of snap) (tables_of_rounds rounds)
