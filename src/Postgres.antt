-- ===== src/Postgres.antt =====
-- internal/postgres/postgres.go: the provider on a PostgreSQL server, its namespaces, audit events and
-- message log. The tables are those of the SQLite provider, and so are the statements that are handed
-- on to its module; a message gets its offset from a sequence, which no rollback sets back.
-- The statements of `ReleaseExpired` name the column offset without quotes, and OFFSET is a reserved
-- word of PostgreSQL: there, `refuses` is true of them.
pub mod Storage
pub mod Serials
use hearsay.Base.{
  ℕ, suc, Bool, true, false, not, ◌&&◌, ◌||◌, List, [], ◌∷◌, ◌++◌, Option, map, filter, any,
  is_empty, ltb, if◌then◌else◌,
}
use hearsay.Base.Int.{ℤ, pos, Time, ◌+ℤ◌, wrap64, two63, eq_ℤ, ltb_ℤ}
use hearsay.Base.Text.{Text, text_eq}
use hearsay.Claims.{Claim}
use hearsay.Provider.{
  Message, Namespace, AuditEvent, QueryOpts, AgentState, Json, Result, ok, err, provider_failure,
}
use hearsay.Memory.Log.{contains_type, all_messages, claims_matching, state_from}
use hearsay.Sql.{
  Session, ◌>>=◌, ◌>>◌, pure, gives, statement, insert_row, delete_where, order_by, limit_rows,
}
use hearsay.Sqlite as Sqlite_tables
use hearsay.Sqlite.{Row, MailRow, HistoryRow, ArtifactRow, Tables, owns, changes}
use hearsay.Sqlite.Log as Sqlite_log
use hearsay.Sqlite.Log.{new_row, next_seq, claim_types, with_messages, message_of}

-- The tables, and the last value that the sequence of the offsets gave.
pub record Database (Payload : Type 0) : Type 0 where
  pub tables : Tables Payload
  pub serial : ℕ

module _ {Payload A : Type 0} where
  -- Statements that do not touch the sequence.
  abbrev pub on_tables : Session (Tables Payload) A → Session (Database Payload) A
  on_tables f d = let (r, t) = f d.tables in (r, record d { tables = t })

module _ {Payload : Type 0} where
  abbrev pub inserted :
      Database Payload → Result (Tables Payload) → Result (Unit {0}) × Database Payload
  inserted d (ok t) = (ok tt, record d { tables = t })
  inserted d (err e) = (err e, d)

  abbrev pub rolled_back : Database Payload → Database Payload → Database Payload
  rolled_back d d' = record d' { tables = d.tables }

  module _ (refuses : ℕ → Bool) where
    unfoldable pub create_namespace : Namespace → Session (Database Payload) (Unit {0})
    create_namespace ns = statement refuses 0 (
        on_tables (
          changes (λ t.
            if any (λ (n : Namespace). text_eq ns.id n.id) t.namespaces
            then t
            else record t { namespaces = t.namespaces ++ (ns ∷ []) })))

    unfoldable pub append_audit : Text → List AuditEvent → Session (Database Payload) (Unit {0})
    append_audit ns events = on_tables (Sqlite_tables.append_audit refuses ns events)

    -- Each statement is a transaction of its own.
    unfoldable pub delete_namespace : Text → Session (Database Payload) (Unit {0})
    delete_namespace ns = on_tables (do
      statement refuses 0 (
          changes (λ t. record t {
            a2a_task_history =
                delete_where (λ (h : HistoryRow Payload). owns ns t h.task_id) t.a2a_task_history;
          }))
      statement refuses 1 (
          changes (λ t. record t {
            a2a_artifacts =
                delete_where (λ (a : ArtifactRow Payload). owns ns t a.task_id) t.a2a_artifacts;
          }))
      statement refuses 2 (
          changes (λ t. record t {
            a2a_tasks = delete_where (λ task. text_eq task.namespace ns) t.a2a_tasks;
          }))
      statement refuses 3 (
          changes (λ t. record t {
            messages = delete_where (λ (m : Row Payload). text_eq m.namespace ns) t.messages;
          }))
      statement refuses 4 (
          changes (λ t. record t {
            mailbox_messages =
                delete_where (λ (m : MailRow). text_eq m.namespace ns) t.mailbox_messages;
          }))
      statement refuses 5 (
          changes (λ t. record t {
            audit_events = delete_where (λ (e : AuditEvent). text_eq e.namespace ns) t.audit_events;
          }))
      statement refuses 6 (
          changes (λ t. record t {
            namespaces = delete_where (λ (n : Namespace). text_eq n.id ns) t.namespaces;
          })))

    -- `tx.Commit()`, or the deferred `tx.Rollback()` where the body has failed.
    abbrev pub settle :
        Database Payload → Result ℕ × Database Payload → Result (Unit {0}) × Database Payload
    settle d (err e, d') = (err e, rolled_back d d')
    settle d (ok n, d') =
        if refuses n then (err provider_failure, rolled_back d d') else (ok tt, d')

    unfoldable pub in_tx : Session (Database Payload) ℕ → Session (Database Payload) (Unit {0})
    in_tx body d = if refuses 0 then (err provider_failure, d) else settle d (body d)

    -- The insertion of a row, with the next value of the sequence as its key.
    unfoldable pub insert_message :
        Time → Text → ℤ → Message Payload → Session (Database Payload) (Unit {0})
    insert_message now ns seq m d =
        let next = suc d.serial in
        if ltb next two63
        then inserted (record d { serial = next })
            (with_messages d.tables (
              insert_row (λ a b. eq_ℤ a.offset b.offset) (new_row now ns (pos next) seq m)
                d.tables.messages))
        else (err provider_failure, d)

    -- The loop of `Append`, from the statement `n`.
    unfoldable pub insert_all :
        Time → Text → ℕ → ℤ → List (Message Payload) → Session (Database Payload) ℕ
    insert_all now ns n seq [] = pure n
    insert_all now ns n seq (m ∷ msgs) = do
      statement refuses n (insert_message now ns seq m)
      insert_all now ns (suc n) (wrap64 (seq +ℤ pos 1)) msgs

    unfoldable pub append :
        Time → Text → List (Message Payload) → Session (Database Payload) (Unit {0})
    append now ns msgs = in_tx (do
      seq ← statement refuses 1 (gives (λ d. next_seq ns d.tables))
      insert_all now ns 2 seq msgs)

    -- The conditions that `Query` puts behind WHERE.
    unfoldable pub is_selected : Text → QueryOpts → Row Payload → Bool
    is_selected ns opts r =
        text_eq r.namespace ns
        && (text_eq opts.agent_id [] || text_eq r.agent_id opts.agent_id)
        && (not (ltb_ℤ (pos 0) opts.since) || ltb_ℤ opts.since r.offset)
        && (is_empty opts.types || contains_type opts.types r.type)

    unfoldable pub query : Text → QueryOpts → Database Payload → Result (List (Message Payload))
    query ns opts d =
        if refuses 0
        then err provider_failure
        else ok (
            map (λ (r : Row Payload). message_of r.namespace r)
              (limit_rows opts.limit (
                order_by (λ (r : Row Payload). r.offset)
                  (filter (is_selected ns opts) d.tables.messages))))

    module _ (json : Json Payload) where
      unfoldable pub active_claims :
          (Text → Text → Bool) → Time → Text → Text → Database Payload → Result (List Claim)
      active_claims path_match now ns pattern d =
          claims_matching json path_match now pattern
            (query ns (record all_messages { types = claim_types }) d)

      unfoldable pub agent_state : Time → Text → Text → Database Payload → Result AgentState
      agent_state now ns agent d = state_from json now agent (query ns all_messages d)

      unfoldable pub release_expired : Text → Time → Session (Database Payload) (Unit {0})
      release_expired ns before = on_tables (Sqlite_log.release_expired refuses json ns before)
