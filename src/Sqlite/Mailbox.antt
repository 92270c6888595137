-- ===== src/Sqlite/Mailbox.antt =====
-- internal/sqlite/sqlite.go: mailbox messages. The key of the table is the id of the message alone.
-- `by_latest` stands for ORDER BY created_at DESC; CURRENT_TIMESTAMP is the reading of the clock.
use hearsay.Base.{ℕ, Bool, not, ◌&&◌, ◌||◌, List, map, filter, if◌then◌else◌}
use hearsay.Base.Int.{Time, is_after, is_before}
use hearsay.Base.Text.{Text, text_eq}
use hearsay.Provider.{
  MailboxMessage, MailboxQueryOpts, mailbox_to_broadcast, Result, ok, err, provider_failure,
}
use hearsay.Memory.Mailbox.{with_times, as_read, as_archived}
use hearsay.Sqlite.{MailRow, Tables, changes}
use hearsay.Sql.{Session, statement, replaced, insert_row, delete_where, update_where, limit_rows}

abbrev pub is_message : Text → Text → MailRow → Bool
is_message ns id r = text_eq r.namespace ns && text_eq r.message.message_id id

abbrev pub map_message : (MailboxMessage → MailboxMessage) → MailRow → MailRow
map_message f r = record r { message = f r.message }

-- The conditions of `GetMailbox` behind WHERE.
unfoldable pub is_delivered : Time → Text → Text → MailboxQueryOpts → MailRow → Bool
is_delivered now ns agent opts r =
    text_eq r.namespace ns
    && (text_eq r.message.to agent || text_eq r.message.to mailbox_to_broadcast)
    && not r.message.archived
    && is_after r.message.expires_at now
    && not (opts.unread && r.message.read)

module _ {Payload : Type 0} where
  abbrev with_mail : Tables Payload → Result (List MailRow) → Result (Tables Payload)
  with_mail t (ok rows) = ok (record t { mailbox_messages = rows })
  with_mail t (err e) = err e

  module _ (refuses : ℕ → Bool) where
    unfoldable pub send_message : Time → Text → MailboxMessage → Session (Tables Payload) (Unit {0})
    send_message now ns msg = statement refuses 0 (λ t. replaced t (
        with_mail t (
          insert_row (λ a b. text_eq a.message.message_id b.message.message_id)
            (record { namespace = ns; message = with_times now msg }) t.mailbox_messages)))

    unfoldable pub get_mailbox :
        (List MailboxMessage → List MailboxMessage)
        → Time
        → Text
        → Text
        → MailboxQueryOpts
        → Tables Payload
        → Result (List MailboxMessage)
    get_mailbox by_latest now ns agent opts t =
        if refuses 0
        then err provider_failure
        else ok (
            limit_rows opts.limit (
              by_latest (
                map (λ (r : MailRow). r.message)
                  (filter (is_delivered now ns agent opts) t.mailbox_messages))))

    unfoldable pub mark_read : Text → Text → Session (Tables Payload) (Unit {0})
    mark_read ns id = statement refuses 0 (
        changes (λ t. record t {
          mailbox_messages =
              update_where (is_message ns id) (map_message as_read) t.mailbox_messages;
        }))

    unfoldable pub archive_message : Text → Text → Session (Tables Payload) (Unit {0})
    archive_message ns id = statement refuses 0 (
        changes (λ t. record t {
          mailbox_messages =
              update_where (is_message ns id) (map_message as_archived) t.mailbox_messages;
        }))

    unfoldable pub expire_messages : Text → Time → Session (Tables Payload) (Unit {0})
    expire_messages ns before = statement refuses 0 (
        changes (λ t. record t {
          mailbox_messages =
              delete_where
                (λ (r : MailRow). text_eq r.namespace ns && is_before r.message.expires_at before)
                t.mailbox_messages;
        }))
