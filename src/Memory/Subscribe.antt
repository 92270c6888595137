-- ===== src/Memory/Subscribe.antt =====
-- internal/memory/memory.go: a subscription to the messages of a namespace (`Subscribe`).
-- A round is one query and the sends that follow it. `room` is the number of sends that succeed
-- before the context is cancelled; `none` is a context that stays alive.
use hearsay.Base.{
  ℕ, zero, suc, Bool, true, false, List, [], ◌∷◌, ◌++◌, Option, none, some, if◌then◌else◌,
}
use hearsay.Base.Int.{ℤ, pos}
use hearsay.Base.Text.{Text}
use hearsay.Provider.{Message, QueryOpts, Result, ok, err}
use hearsay.Memory.{Provider}
use hearsay.Memory.Log.{query}

-- What the goroutine has: the offset that it asks from, and what it sent, in order. It is `live`
-- until it finds the context cancelled.
pub record Subscription (Payload : Type 0) : Type 0 where
  pub from : ℤ
  pub received : List (Message Payload)
  pub live : Bool

abbrev pub since_offset : ℤ → QueryOpts
since_offset from = record { since = from; types = []; agent_id = []; limit = pos 0 }

module _ {Payload : Type 0} where
  abbrev pub hand_over : Message Payload → Subscription Payload → Subscription Payload
  hand_over m st = record st { from = m.offset; received = st.received ++ (m ∷ []) }

  -- The loop over the messages of a round.
  unfoldable pub deliver :
      Option ℕ → List (Message Payload) → Subscription Payload → Subscription Payload
  deliver room [] st = st
  deliver none (m ∷ msgs) st = deliver none msgs (hand_over m st)
  deliver (some zero) (m ∷ msgs) st = record st { live = false }
  deliver (some (suc r)) (m ∷ msgs) st = deliver (some r) msgs (hand_over m st)

  -- The error of the query is dropped.
  abbrev pub found : Result (List (Message Payload)) → List (Message Payload)
  found (ok msgs) = msgs
  found (err e) = []

  unfoldable pub round :
      Text → Option ℕ → Provider Payload → Subscription Payload → Subscription Payload
  round ns room p st = deliver room (found (query ns (since_offset st.from) p)) st

  -- The rounds, each with the state of the provider that its query finds.
  unfoldable pub run_rounds :
      Text → List (Option ℕ × Provider Payload) → Subscription Payload → Subscription Payload
  run_rounds ns [] st = st
  run_rounds ns ((room, p) ∷ rounds) st =
      run_rounds ns rounds (if st.live then round ns room p st else st)

  unfoldable pub subscribe : Text → ℤ → List (Option ℕ × Provider Payload) → Subscription Payload
  subscribe ns from rounds =
      run_rounds ns rounds (record { from = from; received = []; live = true })
