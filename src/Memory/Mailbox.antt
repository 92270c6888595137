-- ===== src/Memory/Mailbox.antt =====
-- internal/memory/memory.go: mailbox messages.
-- `sort_latest` stands for `sort.Slice` by `CreatedAt`, latest first.
use hearsay.Base.{
  ◌*◌, Bool, true, not, ◌&&◌, ◌||◌, List, [], ◌∷◌, ◌++◌, Option, none, some, filter, take, length,
  if◌then◌else◌,
}
use hearsay.Base.Int.{ℤ, pos, pos_part, Time, ◌+ℤ◌, second, ltb_ℤ, is_before, is_zero}
use hearsay.Base.Text.{Text, text_eq}
use hearsay.Provider.{
  MailboxMessage, MailboxQueryOpts, mailbox_to_broadcast, Result, ok, err, message_not_found,
}
use hearsay.Memory.{Provider, update}

-- The two defaults of `SendMessage`.
unfoldable pub with_times : Time → MailboxMessage → MailboxMessage
with_times now msg =
    let created = if is_zero msg.created_at then now else msg.created_at in
    record msg {
      created_at = created;
      expires_at = if is_zero msg.expires_at then created +ℤ pos (300 * second) else msg.expires_at;
    }

-- The tests of the loop of `GetMailbox`.
unfoldable pub is_delivered : Time → Text → MailboxQueryOpts → MailboxMessage → Bool
is_delivered now agent opts m =
    not (m.archived || is_before m.expires_at now)
    && (text_eq m.to agent || text_eq m.to mailbox_to_broadcast)
    && not (opts.unread && m.read)

-- The loop of `MarkRead` and `ArchiveMessage`: the first message with the id is changed.
unfoldable pub change_first :
    (MailboxMessage → MailboxMessage) → Text → List MailboxMessage → Option (List MailboxMessage)
change_first f id [] = none
change_first f id (m ∷ msgs) =
    let rest = change_first f id msgs in
    if text_eq m.message_id id
    then some (f m ∷ msgs)
    else elim rest [ none ↦ none | some r ↦ some (m ∷ r) ]

abbrev pub as_read : MailboxMessage → MailboxMessage
as_read m = record m { read = true }

abbrev pub as_archived : MailboxMessage → MailboxMessage
as_archived m = record m { archived = true }

abbrev pub limit_messages : ℤ → List MailboxMessage → List MailboxMessage
limit_messages limit msgs =
    if ltb_ℤ (pos 0) limit && ltb_ℤ limit (pos (length msgs))
    then take (pos_part limit) msgs
    else msgs

module _ {Payload : Type 0} where
  unfoldable pub send_message :
      Time → Text → MailboxMessage → Provider Payload → Result (Unit {0}) × Provider Payload
  send_message now ns msg p = (
    ok tt,
    record p {
      mailbox_messages =
          update ns (p.mailbox_messages ns ++ (with_times now msg ∷ [])) p.mailbox_messages;
    },
  )

  unfoldable pub get_mailbox :
      (List MailboxMessage → List MailboxMessage)
      → Time
      → Text
      → Text
      → MailboxQueryOpts
      → Provider Payload
      → Result (List MailboxMessage)
  get_mailbox sort_latest now ns agent opts p = ok (
      limit_messages opts.limit
        (sort_latest (filter (is_delivered now agent opts) (p.mailbox_messages ns))))

  abbrev pub changed :
      Text
      → Text
      → Provider Payload
      → Option (List MailboxMessage)
      → Result (Unit {0}) × Provider Payload
  changed ns id p none = (err (message_not_found id), p)
  changed ns id p (some msgs) =
      (ok tt, record p { mailbox_messages = update ns msgs p.mailbox_messages })

  unfoldable pub mark_read : Text → Text → Provider Payload → Result (Unit {0}) × Provider Payload
  mark_read ns id p = changed ns id p (change_first as_read id (p.mailbox_messages ns))

  unfoldable pub archive_message :
      Text → Text → Provider Payload → Result (Unit {0}) × Provider Payload
  archive_message ns id p = changed ns id p (change_first as_archived id (p.mailbox_messages ns))

  unfoldable pub expire_messages :
      Text → Time → Provider Payload → Result (Unit {0}) × Provider Payload
  expire_messages ns before p = (
    ok tt,
    record p {
      mailbox_messages =
          update ns (filter (λ m. not (is_before m.expires_at before)) (p.mailbox_messages ns))
            p.mailbox_messages;
    },
  )
