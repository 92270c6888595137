-- ===== src/Tests/Memory.antt =====
-- The log of the in-memory provider at concrete inputs (internal/memory/memory.go).
use hearsay.Base.{
  ◌≤◌, ◌≡◌, refl, List, [], ◌∷◌, ◌++◌, length, drop, arith, none, not, true, false, In, ◌↔◌, filter,
  map,
}
use hearsay.Base.Int.{pos, zero_time, wrap64, ◌+ℤ◌}
use hearsay.Base.Text.{codes, text_eq}
use hearsay.Provider.{Message, MailboxMessage, note, msg_claim, ok}
use hearsay.Memory.{Provider, new}
use hearsay.Memory.Log.{append, append_all, append_one, query, is_skipped}
use hearsay.Memory.Numbering.{IsNumbered, WellNumbered, stamp, append-WellNumbered}
use hearsay.Memory.Mailbox.{send_message, get_mailbox}
use hearsay.Memory.Delivery.{everything}
use hearsay.Memory.Sending.{IsFilledIn, IsFor, Left, sent_then_listed}
use hearsay.Memory.Queries.{limited, from_cursor, query-cursor, query-filter}
use hearsay.Memory.LogLaws.{memory_provider, memory-LogLaws}
use hearsay.Client.Laws.{LogLaws}
use hearsay.Memory.Events.{event_of, subscribe_events}
use hearsay.Memory.Subscribe.{subscribe}
use hearsay.Memory.Following.{Growing, last_log, uncancelled, subscribe_exact}
use hearsay.Memory.Streaming.{concat, rounds_of, stream_exact}
use hearsay.Tests.Fixtures.{
  Body, claim_body, sample_json, no_glob, write_claim, message_at, claim_message, heartbeat_message,
  release_message, main_ns,
}

abbrev empty_memory : Provider Body
empty_memory = new

empty-WellNumbered : WellNumbered main_ns empty_memory
unfolding new
empty-WellNumbered = record { counter = refl; numbered = tt }

abbrev batch : List (Message Body)
batch = heartbeat_message ∷ claim_message ∷ []

append-WellNumbered_example :
    ((append (pos 9) main_ns batch empty_memory).1.messages main_ns
      ≡ empty_memory.messages main_ns
        ++ stamp (pos 9) main_ns (length (empty_memory.messages main_ns)) batch)
    × WellNumbered main_ns (append (pos 9) main_ns batch empty_memory).1
unfolding new
append-WellNumbered_example =
    append-WellNumbered (pos 9) main_ns batch empty_memory empty-WellNumbered (omega arith)

abbrev two_messages : Provider Body
two_messages = (append (pos 9) main_ns batch empty_memory).1

two-WellNumbered : WellNumbered main_ns two_messages
unfolding new
two-WellNumbered =
    (append-WellNumbered (pos 9) main_ns batch empty_memory empty-WellNumbered (omega arith)).1

query-cursor_example :
    query main_ns (from_cursor 1 (pos 5)) two_messages
    ≡ ok (limited (pos 5) (drop 1 (two_messages.messages main_ns)))
query-cursor_example = query-cursor main_ns 1 (pos 5) two_messages two-WellNumbered

query-filter_example :
    query main_ns (from_cursor 1 (pos 5)) two_messages
    ≡ ok (
        limited (pos 5) (
          filter (λ m. not (is_skipped (from_cursor 1 (pos 5)) m)) (two_messages.messages main_ns)))
query-filter_example = query-filter main_ns (from_cursor 1 (pos 5)) two_messages

memory-LogLaws_example :
    LogLaws sample_json no_glob
      (memory_provider sample_json no_glob)
      main_ns
      (λ p. p.messages main_ns)
      (WellNumbered main_ns)
memory-LogLaws_example = memory-LogLaws sample_json no_glob main_ns

abbrev log_of_one : List (Message Body)
log_of_one = message_at 1 msg_claim (claim_body write_claim) (pos 1000) ∷ []

abbrev new_batches : List (List (Message Body))
new_batches = (claim_message ∷ []) ∷ (heartbeat_message ∷ release_message 4 ∷ []) ∷ []

batches-IsNumbered : IsNumbered 0 (log_of_one ++ concat new_batches)
batches-IsNumbered = (refl, (refl, (refl, (refl, tt))))

stream_exact_example :
    (subscribe_events (pos 1) none log_of_one (rounds_of log_of_one new_batches)).sent
    ≡ map event_of (drop 1 (log_of_one ++ concat new_batches))
stream_exact_example = stream_exact 1 log_of_one new_batches (omega arith) batches-IsNumbered

abbrev pub as_given : List MailboxMessage → List MailboxMessage
as_given ms = ms

pub as_given_keeps : (ms : List MailboxMessage) (m : MailboxMessage) → In m (as_given ms) ↔ In m ms
as_given_keeps ms m = (λ i. i, λ i. i)

abbrev hello : MailboxMessage
hello = record {
  message_id = codes "m1";
  from = codes "alice";
  to = codes "bob";
  type = note;
  content = codes "hello";
  related_claim_id = [];
  read = false;
  archived = false;
  created_at = zero_time;
  expires_at = zero_time;
}

sent_then_listed_example :
    let look = get_mailbox as_given (pos 9) main_ns (codes "bob") (everything true) in
    let after = (send_message (pos 7) main_ns hello two_messages).1 in
    (m : MailboxMessage) × (old : List MailboxMessage) × IsFilledIn (pos 7) hello m
    × Left (IsFor (pos 9) (codes "bob") true) (two_messages.mailbox_messages main_ns) old
    × (look two_messages ≡ ok old)
    × (IsFor (pos 9) (codes "bob") true m → look after ≡ ok (old ++ (m ∷ [])))
    × ((¬ IsFor (pos 9) (codes "bob") true m) → look after ≡ ok old)
sent_then_listed_example =
    sent_then_listed as_given (pos 7) (pos 9) main_ns (codes "bob") true hello two_messages

abbrev four_messages : Provider Body
four_messages = (append (pos 11) main_ns batch two_messages).1

four-WellNumbered :
    (four_messages.messages main_ns
      ≡ two_messages.messages main_ns
        ++ stamp (pos 11) main_ns (length (two_messages.messages main_ns)) batch)
    × WellNumbered main_ns four_messages
unfolding new append append_all append_one ◌+ℤ◌ wrap64 text_eq
four-WellNumbered =
    append-WellNumbered (pos 11) main_ns batch two_messages two-WellNumbered (omega arith)

log_grows : Growing main_ns (two_messages.messages main_ns) (four_messages ∷ [])
log_grows = (
  stamp (pos 11) main_ns (length (two_messages.messages main_ns)) batch,
  (four-WellNumbered.0, (four-WellNumbered.1, tt)),
)

two_long : 1 ≤ length (two_messages.messages main_ns)
unfolding new append append_all append_one text_eq
two_long = omega arith

subscribe_exact_example :
    (subscribe main_ns (pos 1) (uncancelled (two_messages ∷ four_messages ∷ []))).received
    ≡ drop 1 (last_log main_ns (two_messages.messages main_ns) (four_messages ∷ []))
subscribe_exact_example =
    subscribe_exact main_ns 1 two_messages (four_messages ∷ []) two_long two-WellNumbered log_grows
