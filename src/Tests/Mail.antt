-- ===== src/Tests/Mail.antt =====
-- The mailbox service and the limits at concrete inputs (internal/mailbox, pkg/hearsay/validation.go).
use hearsay.Base.{◌≡◌, ◌≢◌, ◌≤◌, ◌↔◌, refl, true, none, length, arith, []}
use hearsay.Base.Int.{pos, seconds, wrap64, ◌+ℤ◌}
use hearsay.Base.Text.{codes}
use hearsay.Provider.{note, is_valid_mailbox_type}
use hearsay.Memory.{Provider, new}
use hearsay.Memory.Mailbox.{send_message}
use hearsay.Memory.Delivery.{Delivered}
use hearsay.Mail.{sent, Letter, message_of, send, validate_resource_uri}
use hearsay.Mail.Reaching.{IsAccepted, send_reaches}
use hearsay.Mail.Limits.{StandsIn, validate_resource_uri_iff}
use hearsay.Tests.Fixtures.{Body, main_ns, file_a}
use hearsay.Tests.Memory.{as_given, as_given_keeps}

abbrev letter : Letter
letter = record {
  from = codes "alice";
  to = codes "bob";
  type = note;
  content = codes "hello";
  related_claim_id = [];
  ttl_seconds = pos 60;
}

letter-IsAccepted : IsAccepted letter
unfolding is_valid_mailbox_type
letter-IsAccepted = record {
  type = refl;
  content = λ h. ground arith;
  from = λ h. ground arith;
  to = λ h. ground arith;
}

abbrev nothing_sent : Provider Body
nothing_sent = new

send_reaches_example :
    let out =
      send (send_message (pos 7)) (codes "m1") (pos 7) (pos 7) main_ns letter nothing_sent in
    (out.0 ≡ sent (codes "m1"))
    × Delivered as_given as_given_keeps
        (pos 60000000007)
        main_ns
        (codes "bob")
        true
        out.1
        (message_of (codes "m1") (pos 7) (pos 7) letter)
unfolding message_of seconds wrap64 ◌+ℤ◌
send_reaches_example =
    send_reaches as_given as_given_keeps (codes "m1") (pos 7) (pos 7) (pos 7) (pos 60000000007)
      main_ns true letter nothing_sent letter-IsAccepted refl refl refl

validate_resource_uri_iff_example :
    (validate_resource_uri file_a ≡ none)
    ↔ ((file_a ≢ []) × ((length file_a ≤ 2048) × StandsIn (codes "://") file_a))
validate_resource_uri_iff_example = validate_resource_uri_iff file_a
