-- ===== src/Mail.antt =====
-- internal/mailbox/mailbox.go: the checks before a mailbox message is sent; and
-- pkg/hearsay/validation.go: the limits of identifiers.
-- `id` is the new UUID. The clock is read for the creation and again for the expiry.
pub mod Reaching
pub mod Limits
use hearsay.Base.{
  Bool, true, false, not, List, [], ◌∷◌, Option, none, some, length, ltb, ℕ, if◌then◌else◌,
}
use hearsay.Base.Int.{ℤ, pos, leb_ℤ, Time, ◌+ℤ◌, seconds}
use hearsay.Base.Text.{Text, codes, text_eq, contains}
use hearsay.Provider.{MailboxMessage, MailboxType, is_valid_mailbox_type, Error, Result, ok, err}

pub data Sent : Type 0 where
  sent : Text → Sent
  invalid_type empty_content empty_from empty_to : Sent
  not_stored : Error → Sent

-- The arguments of `Send` behind the namespace.
pub record Letter : Type 0 where
  pub from : Text
  pub to : Text
  pub type : MailboxType
  pub content : Text
  pub related_claim_id : Text
  pub ttl_seconds : ℤ

abbrev pub ttl_of : ℤ → ℤ
ttl_of ttl = if leb_ℤ ttl (pos 0) then pos 300 else ttl

unfoldable pub message_of : Text → Time → Time → Letter → MailboxMessage
message_of id created clock l = record {
  message_id = id;
  from = l.from;
  to = l.to;
  type = l.type;
  content = l.content;
  related_claim_id = l.related_claim_id;
  read = false;
  archived = false;
  created_at = created;
  expires_at = clock +ℤ seconds (ttl_of l.ttl_seconds);
}

module _ {S : Type 0} (send_message : Text → MailboxMessage → S → Result (Unit {0}) × S) where
  abbrev pub answered : Text → Result (Unit {0}) × S → Sent × S
  answered id (ok u, s) = (sent id, s)
  answered id (err e, s) = (not_stored e, s)

  unfoldable pub send : Text → Time → Time → Text → Letter → S → Sent × S
  send id created clock ns l s =
      if not (is_valid_mailbox_type l.type)
      then (invalid_type, s)
      else if text_eq l.content []
      then (empty_content, s)
      else if text_eq l.from []
      then (empty_from, s)
      else if text_eq l.to []
      then (empty_to, s)
      else answered id (send_message ns (message_of id created clock l) s)

-- `ValidationError`, without its text: the field, and what is wrong.
pub data Invalid : Type 0 where
  required too_long : Text → Invalid
  no_scheme : Invalid

abbrev pub max_agent_id_len : ℕ
max_agent_id_len = 128

abbrev pub max_resource_uri_len : ℕ
max_resource_uri_len = 2048

abbrev pub max_intent_len : ℕ
max_intent_len = 512

abbrev pub max_namespace_len : ℕ
max_namespace_len = 64

unfoldable pub validate_agent_id : Text → Option Invalid
validate_agent_id id =
    if text_eq id []
    then some (required (codes "agent_id"))
    else if ltb max_agent_id_len (length id)
    then some (too_long (codes "agent_id"))
    else none

unfoldable pub validate_resource_uri : Text → Option Invalid
validate_resource_uri uri =
    if text_eq uri []
    then some (required (codes "resource_uri"))
    else if ltb max_resource_uri_len (length uri)
    then some (too_long (codes "resource_uri"))
    else if not (contains uri (codes "://"))
    then some no_scheme
    else none

unfoldable pub validate_intent : Text → Option Invalid
validate_intent intent =
    if ltb max_intent_len (length intent) then some (too_long (codes "intent")) else none

unfoldable pub validate_namespace : Text → Option Invalid
validate_namespace ns =
    if text_eq ns []
    then some (required (codes "namespace"))
    else if ltb max_namespace_len (length ns)
    then some (too_long (codes "namespace"))
    else none
