-- ===== src/Server/Http/Events.antt =====
-- internal/server/sse.go: the stream of the coordination events of a namespace.
-- `events` is what the channel of `SubscribeEvents` delivers until the connection ends.
use hearsay.Base.{List, [], ◌∷◌, Option, none, some, map, if◌then◌else◌}
use hearsay.Base.Int.{ℤ, pos}
use hearsay.Base.Text.{Text, codes, text_eq}
use hearsay.Provider.{Event, EventType, Result, ok, err}
use hearsay.Server.Http.{Request}

-- What is written for an event, and for an error of the subscription.
pub data Frame (Payload : Type 0) : Type 0 where
  event_frame : EventType → Payload → Frame Payload
  error_frame : Frame Payload

pub data EventReply (Payload : Type 0) : Type 0 where
  no_namespace invalid_since : EventReply Payload
  frames : List (Frame Payload) → EventReply Payload

module _ {Payload : Type 0} where
  abbrev pub frame_of : Event Payload → Frame Payload
  frame_of e = event_frame e.type e.payload

  abbrev frames_of : Result (List (Event Payload)) → EventReply Payload
  frames_of (ok es) = frames (map frame_of es)
  frames_of (err e) = frames (error_frame ∷ [])

  abbrev stream_from :
      (Text → ℤ → Result (List (Event Payload))) → Text → Option ℤ → EventReply Payload
  stream_from events ns none = invalid_since
  stream_from events ns (some since) = frames_of (events ns since)

  unfoldable pub handle_sse :
      {Body : Type 0}
      → (Text → Option ℤ)
      → (Text → ℤ → Result (List (Event Payload)))
      → Request Body
      → EventReply Payload
  handle_sse parse_int events r =
      let ns = r.query (codes "namespace") in
      let since = r.query (codes "since") in
      if text_eq ns []
      then no_namespace
      else stream_from events ns (if text_eq since [] then some (pos 0) else parse_int since)
