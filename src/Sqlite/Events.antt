-- ===== src/Sqlite/Events.antt =====
-- internal/sqlite/sqlite.go: the streams of messages (`Subscribe`) and of events (`SubscribeEvents`).
-- `room` is the number of sends that succeed before the context is cancelled; `none` is a context
-- that stays alive. A round comes with what the engine refuses and the tables that it finds.
use hearsay.Base.{
  ℕ, zero, suc, Bool, true, false, ◌&&◌, List, [], ◌∷◌, ◌++◌, Option, none, some, map, filter,
  if◌then◌else◌,
}
use hearsay.Base.Int.{ℤ, pos, ltb_ℤ}
use hearsay.Base.Text.{Text}
use hearsay.Provider.{
  MessageType, msg_claim, msg_release, msg_heartbeat, EventType, event_claim, event_release,
  event_heartbeat, event_other, Message, Event, Result, ok, err,
}
use hearsay.Memory.Events.{Stream}
use hearsay.Memory.Subscribe.{Subscription, since_offset, deliver}
use hearsay.Sqlite.{Row, Tables}
use hearsay.Sqlite.Log.{is_in, query}
use hearsay.Sql.{order_by, coalesce}

unfoldable pub msg_type_to_event : MessageType → EventType
msg_type_to_event msg_claim = event_claim
msg_type_to_event msg_release = event_release
msg_type_to_event msg_heartbeat = event_heartbeat
msg_type_to_event t = event_other t

-- The log as a round finds it.
abbrev pub Snapshot : Type 0 → Type 0
Snapshot Payload = (ℕ → Bool) × Tables Payload

-- `seq > ?`, which a NULL does not meet.
abbrev pub is_newer : ℤ → Option ℤ → Bool
is_newer since none = false
is_newer since (some s) = ltb_ℤ since s

module _ {Payload : Type 0} where
  -- A message that the query found is sent; an error of the query ends the goroutine.
  abbrev deliver_found :
      Option ℕ → Result (List (Message Payload)) → Subscription Payload → Subscription Payload
  deliver_found room (ok msgs) st = deliver room msgs st
  deliver_found room (err e) st = record st { live = false }

  unfoldable pub subscribe_round :
      Text → Option ℕ → Snapshot Payload → Subscription Payload → Subscription Payload
  subscribe_round ns room (refuses, t) st =
      deliver_found room (query refuses ns (since_offset st.from) t) st

  unfoldable pub run_rounds :
      Text → List (Option ℕ × Snapshot Payload) → Subscription Payload → Subscription Payload
  run_rounds ns [] st = st
  run_rounds ns ((room, snap) ∷ rounds) st =
      run_rounds ns rounds (if st.live then subscribe_round ns room snap st else st)

  unfoldable pub subscribe : Text → ℤ → List (Option ℕ × Snapshot Payload) → Subscription Payload
  subscribe ns from rounds =
      run_rounds ns rounds (record { from = from; received = []; live = true })

  abbrev pub seq_of : Row Payload → ℤ
  seq_of r = coalesce r.seq (pos 0)

  unfoldable pub event_of : Row Payload → Event Payload
  event_of r = record {
    seq = seq_of r;
    type = msg_type_to_event r.type;
    payload = r.payload;
    timestamp = r.timestamp;
  }

  unfoldable pub events_since : Text → ℤ → Tables Payload → List (Event Payload)
  events_since ns since t = map event_of (
      order_by seq_of (filter (λ (r : Row Payload). is_in ns r && is_newer since r.seq) t.messages))

  abbrev pub push : Event Payload → Stream Payload → Stream Payload
  push ev st = record st { since = ev.seq; sent = st.sent ++ (ev ∷ []) }

  -- The loop over the rows of a query.
  unfoldable pub send_all : Option ℕ → List (Event Payload) → Stream Payload → Stream Payload
  send_all room [] st = st
  send_all none (ev ∷ evs) st = send_all none evs (push ev st)
  send_all (some zero) (ev ∷ evs) st = record st { live = false }
  send_all (some (suc r)) (ev ∷ evs) st = send_all (some r) evs (push ev st)

  -- A query that fails at the start ends the goroutine; a later one is tried again.
  unfoldable pub replay : Text → Option ℕ → Snapshot Payload → Stream Payload → Stream Payload
  replay ns room (refuses, t) st =
      if refuses 0
      then record st { live = false }
      else send_all room (events_since ns st.since t) st

  unfoldable pub poll : Text → Option ℕ → Snapshot Payload → Stream Payload → Stream Payload
  poll ns room (refuses, t) st =
      if refuses 0 then st else send_all room (events_since ns st.since t) st

  unfoldable pub run_polls :
      Text → List (Option ℕ × Snapshot Payload) → Stream Payload → Stream Payload
  run_polls ns [] st = st
  run_polls ns ((room, snap) ∷ rounds) st =
      run_polls ns rounds (if st.live then poll ns room snap st else st)

  unfoldable pub subscribe_events :
      Text → ℤ → Option ℕ × Snapshot Payload → List (Option ℕ × Snapshot Payload) → Stream Payload
  subscribe_events ns since (room, snap) rounds =
      run_polls ns rounds (replay ns room snap (record { since = since; sent = []; live = true }))
