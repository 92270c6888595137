-- ===== src/Memory/Events.antt =====
-- internal/memory/memory.go: the stream of events of a namespace (`SubscribeEvents`).
-- `room` is the number of sends that succeed before the context is cancelled; `none` is a context
-- that stays alive. A send that waits for the reader is not a step: it holds back what follows it.
use hearsay.Base.{
  ℕ, zero, suc, Bool, true, false, List, [], ◌∷◌, ◌++◌, Option, none, some, if◌then◌else◌,
}
use hearsay.Base.Int.{ℤ, leb_ℤ}
use hearsay.Provider.{
  MessageType, msg_claim, msg_release, msg_transfer, msg_heartbeat, msg_mailbox_send,
  msg_mailbox_read, msg_mailbox_archive, EventType, event_claim, event_release, event_heartbeat,
  event_mailbox, event_other, Message, Event,
}

unfoldable pub message_type_to_event_type : MessageType → EventType
message_type_to_event_type msg_claim = event_claim
message_type_to_event_type msg_release = event_release
message_type_to_event_type msg_transfer = event_release
message_type_to_event_type msg_heartbeat = event_heartbeat
message_type_to_event_type msg_mailbox_send = event_mailbox
message_type_to_event_type msg_mailbox_read = event_mailbox
message_type_to_event_type msg_mailbox_archive = event_mailbox
message_type_to_event_type t = event_other t

-- What the goroutine has: the last sequence number sent, and what it sent, in order. It is `live`
-- until it finds the context cancelled.
pub record Stream (Payload : Type 0) : Type 0 where
  pub since : ℤ
  pub sent : List (Event Payload)
  pub live : Bool

module _ {Payload : Type 0} where
  unfoldable pub event_of : Message Payload → Event Payload
  event_of m = record {
    seq = m.offset;
    type = message_type_to_event_type m.type;
    payload = m.payload;
    timestamp = m.timestamp;
  }

  abbrev pub push : Message Payload → Stream Payload → Stream Payload
  push m st = record st { since = m.offset; sent = st.sent ++ (event_of m ∷ []) }

  abbrev pub stop : Stream Payload → Stream Payload
  stop st = record st { live = false }

  -- The replay compares each message with the sequence number that it began with.
  unfoldable pub replay : ℤ → Option ℕ → List (Message Payload) → Stream Payload → Stream Payload
  replay from room [] st = st
  replay from none (m ∷ msgs) st =
      replay from none msgs (if leb_ℤ m.offset from then st else push m st)
  replay from (some zero) (m ∷ msgs) st =
      let rest = replay from (some zero) msgs st in if leb_ℤ m.offset from then rest else stop st
  replay from (some (suc r)) (m ∷ msgs) st =
      replay from (if leb_ℤ m.offset from then some (suc r) else some r) msgs
        (if leb_ℤ m.offset from then st else push m st)

  -- A round of polling compares each message with the last sequence number sent.
  unfoldable pub poll : Option ℕ → List (Message Payload) → Stream Payload → Stream Payload
  poll room [] st = st
  poll none (m ∷ msgs) st = poll none msgs (if leb_ℤ m.offset st.since then st else push m st)
  poll (some zero) (m ∷ msgs) st =
      let rest = poll (some zero) msgs st in if leb_ℤ m.offset st.since then rest else stop st
  poll (some (suc r)) (m ∷ msgs) st =
      poll (if leb_ℤ m.offset st.since then some (suc r) else some r) msgs
        (if leb_ℤ m.offset st.since then st else push m st)

  -- The goroutine over the messages that it finds at its start and at each round.
  unfoldable pub run_polls :
      List (Option ℕ × List (Message Payload)) → Stream Payload → Stream Payload
  run_polls [] st = st
  run_polls ((room, msgs) ∷ rounds) st =
      run_polls rounds (if st.live then poll room msgs st else st)

  unfoldable pub subscribe_events :
      ℤ
      → Option ℕ
      → List (Message Payload)
      → List (Option ℕ × List (Message Payload))
      → Stream Payload
  subscribe_events since room msgs rounds =
      run_polls rounds (replay since room msgs (record { since = since; sent = []; live = true }))
