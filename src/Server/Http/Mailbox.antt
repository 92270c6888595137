-- ===== src/Server/Http/Mailbox.antt =====
-- internal/server/mailbox_handlers.go: the handlers of mailboxes, over the mailbox service.
-- `new_id` is the UUID that the service makes.
use hearsay.Base.{not, ◌&&◌, ◌||◌, [], Option, none, if◌then◌else◌}
use hearsay.Base.Int.{Time, pos}
use hearsay.Base.Text.{Text, codes, text_eq}
use hearsay.Provider.{MailboxQueryOpts}
use hearsay.Mail.{
  Letter, Invalid, Sent, sent, invalid_type, empty_content, empty_from, empty_to, not_stored, send,
  validate_namespace, validate_agent_id,
}
use hearsay.Server.Audit.{Logger}
use hearsay.Server.Http.{
  Reply, Request, Bodies, Store, Handler, reply, bad_request, accepted, refusal, id_content,
  mailbox_content, on_store, decoded, valid, answered, answered_with,
}

-- The check of `req.To`, which an empty text passes.
abbrev pub validate_to : Text → Option Invalid
validate_to to =
    if not (text_eq to []) && not (text_eq to (codes "broadcast"))
    then validate_agent_id to
    else none

module _ {Payload S : Type 0} where
  abbrev pub answer_letter : Sent × Logger S → Reply Payload × Logger S
  answer_letter (sent id, l) = (reply 201 (id_content id), l)
  answer_letter (invalid_type, l) = (bad_request, l)
  answer_letter (empty_content, l) = (bad_request, l)
  answer_letter (empty_from, l) = (bad_request, l)
  answer_letter (empty_to, l) = (bad_request, l)
  answer_letter (not_stored e, l) = (bad_request, l)

module _ {Payload S Body : Type 0} (store : Store Payload S) (bodies : Bodies Payload Body)
    (now : Time) where
  -- The test of the method with which each of these handlers begins.
  abbrev pub only : Text → Request Body → Handler Payload S → Handler Payload S
  only method r h l = if text_eq r.method method then h l else (reply 405 refusal, l)

  abbrev pub send_letter : Text → Text × Letter → Handler Payload S
  send_letter new_id (ns, letter) = valid (validate_namespace ns) (
      valid (validate_agent_id letter.from) (
        valid (validate_to letter.to) (λ l.
          answer_letter (on_store (send (store.send_message now) new_id now now ns letter) l))))

  unfoldable pub handle_send_message : Text → Request Body → Handler Payload S
  handle_send_message new_id r =
      only (codes "POST") r (decoded (bodies.letter_request r.body) (send_letter new_id))

  abbrev pub mail_opts : Request Body → MailboxQueryOpts
  mail_opts r = record {
    unread = text_eq (r.query (codes "unread")) (codes "true");
    include_claims = text_eq (r.query (codes "include_claims")) (codes "true");
    limit = pos 0;
  }

  abbrev pub read_mailbox : Request Body → Handler Payload S
  read_mailbox r l =
      let ns = r.query (codes "namespace") in
      let agent = r.query (codes "agent_id") in
      if text_eq ns [] || text_eq agent []
      then (bad_request, l)
      else answered_with mailbox_content (store.get_mailbox now ns agent (mail_opts r) l.store) l

  unfoldable pub handle_get_mailbox : Request Body → Handler Payload S
  handle_get_mailbox r = only (codes "GET") r (read_mailbox r)

  abbrev pub mark : Text × Text → Handler Payload S
  mark (ns, id) l = answered (reply 200 accepted) 404 (on_store (store.mark_read ns id) l)

  unfoldable pub handle_mark_read : Request Body → Handler Payload S
  handle_mark_read r = only (codes "POST") r (decoded (bodies.action_request r.body) mark)

  abbrev pub archive : Text × Text → Handler Payload S
  archive (ns, id) l = answered (reply 200 accepted) 404 (on_store (store.archive_message ns id) l)

  unfoldable pub handle_archive_message : Request Body → Handler Payload S
  handle_archive_message r = only (codes "POST") r (decoded (bodies.action_request r.body) archive)
