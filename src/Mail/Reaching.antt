-- ===== src/Mail/Reaching.antt =====
-- A message that the service accepts reaches its addressee (internal/mailbox/mailbox.go).
use hearsay.Base.{◌≡◌, refl, sym, ◌≢◌, ◌↔◌, inr, Bool, true, false, List, [], In}
use hearsay.Base.Int.{Time, is_before, is_zero}
use hearsay.Base.Text.{Text, text_eq_refl, text_eq-false}
use hearsay.Provider.{MailboxMessage, is_valid_mailbox_type}
use hearsay.Memory.{Provider}
use hearsay.Memory.Mailbox.{send_message, with_times, is_delivered}
use hearsay.Memory.Delivery.{Delivered, everything, sent-Delivered_iff}
use hearsay.Mail.{sent, Letter, message_of, send}

-- What `Send` asks of its arguments.
pub record IsAccepted (l : Letter) : Type 0 where
  pub type : is_valid_mailbox_type l.type ≡ true
  pub content : l.content ≢ []
  pub from : l.from ≢ []
  pub to : l.to ≢ []

with_times-set :
    (now : Time) (m : MailboxMessage)
    → is_zero m.created_at ≡ false
    → is_zero m.expires_at ≡ false
    → with_times now m ≡ m
unfolding with_times
with_times-set now m c x = rw (c, x) refl

message_of-is_delivered :
    (id : Text) (created clock later : Time) (unread : Bool) (l : Letter)
    → is_before (message_of id created clock l).expires_at later ≡ false
    → is_delivered later l.to (everything unread) (message_of id created clock l) ≡ true
unfolding is_delivered message_of
message_of-is_delivered id created clock later true l d = rw (d, text_eq_refl l.to) refl
message_of-is_delivered id created clock later false l d = rw (d, text_eq_refl l.to) refl

module _ {Payload : Type 0} (sort_latest : List MailboxMessage → List MailboxMessage)
    (keeps : (ms : List MailboxMessage) (m : MailboxMessage)
      → In m (sort_latest ms) ↔ In m ms) where
  -- An accepted message gets its id as the answer, and its addressee finds it in the mailbox, read
  -- messages included or not, at every time up to its expiry, if neither of its two times is the
  -- zero time.
  pub send_reaches :
      (id : Text) (created clock now later : Time) (ns : Text) (unread : Bool) (l : Letter)
      (p : Provider Payload)
      → IsAccepted l
      → is_zero created ≡ false
      → is_zero (message_of id created clock l).expires_at ≡ false
      → is_before (message_of id created clock l).expires_at later ≡ false
      → let out = send (send_message now) id created clock ns l p in
        (out.0 ≡ sent id)
        × Delivered sort_latest keeps later ns l.to unread out.1 (message_of id created clock l)
  unfolding send send_message message_of
  send_reaches id created clock now later ns unread l p a c x d =
      let m = message_of id created clock l in
      rw
        (
          a.type,
          text_eq-false l.content a.content,
          text_eq-false l.from a.from,
          text_eq-false l.to a.to,
        )
        (
          refl,
          (sent-Delivered_iff sort_latest keeps now later ns l.to unread m p m).1 (
              inr (
                sym (with_times-set now m c x),
                message_of-is_delivered id created clock later unread l d,
              )),
        )
