-- ===== src/Memory/Log.antt =====
-- internal/memory/memory.go: the message log, its queries, and the views of claims and agents.
use hearsay.Base.{
  ℕ, suc, Bool, false, not, ◌&&◌, ◌||◌, List, [], ◌∷◌, ◌++◌, filter, map, is_empty, if◌then◌else◌,
}
use hearsay.Base.Int.{pos, Time, ◌+ℤ◌, wrap64, leb_ℤ, ltb_ℤ, is_after, zero_time}
use hearsay.Base.Text.{Text, text_eq}
use hearsay.Claims.{Claim, resource_matches_pattern}
use hearsay.Provider.{MessageType, type_eq, Message, QueryOpts, AgentState, Json, Result, ok, err}
use hearsay.Active.{filter_active_claims}
use hearsay.Memory.{Provider, update}

unfoldable pub contains_type : List MessageType → MessageType → Bool
contains_type [] t = false
contains_type (t' ∷ types) t = type_eq t' t || contains_type types t

abbrev pub all_messages : QueryOpts
all_messages = record { since = pos 0; types = []; agent_id = []; limit = pos 0 }

module _ {Payload : Type 0} where
  -- One round of the loop of `Append`: the next offset, and the message as it is stored.
  unfoldable pub append_one : Time → Text → Provider Payload → Message Payload → Provider Payload
  append_one now ns p m =
      let o = wrap64 (p.offsets ns +ℤ pos 1) in
      let stored = record m { offset = o; namespace = ns; timestamp = now } in
      record p {
        offsets = update ns o p.offsets;
        messages = update ns (p.messages ns ++ (stored ∷ [])) p.messages;
      }

  unfoldable pub append_all :
      Time → Text → List (Message Payload) → Provider Payload → Provider Payload
  append_all now ns [] p = p
  append_all now ns (m ∷ msgs) p = append_all now ns msgs (append_one now ns p m)

  unfoldable pub append :
      Time → Text → List (Message Payload) → Provider Payload → Result (Unit {0}) × Provider Payload
  append now ns msgs p = (ok tt, append_all now ns msgs p)

  -- The three `continue` tests of `Query`.
  unfoldable pub is_skipped : QueryOpts → Message Payload → Bool
  is_skipped opts m =
      leb_ℤ m.offset opts.since
      || (not (is_empty opts.types) && not (contains_type opts.types m.type))
      || (not (text_eq opts.agent_id []) && not (text_eq m.agent_id opts.agent_id))

  -- The loop of `Query`, with the length of the result so far.
  unfoldable pub query_loop : QueryOpts → ℕ → List (Message Payload) → List (Message Payload)
  query_loop opts n [] = []
  query_loop opts n (m ∷ msgs) =
      let skip = is_skipped opts m in
      let rest = query_loop opts (if skip then n else suc n) msgs in
      if skip
      then rest
      else m ∷ (if ltb_ℤ (pos 0) opts.limit && leb_ℤ opts.limit (pos (suc n)) then [] else rest)

  unfoldable pub query : Text → QueryOpts → Provider Payload → Result (List (Message Payload))
  query ns opts p = ok (query_loop opts 0 (p.messages ns))

  module _ (json : Json Payload) where
    abbrev pub claims_matching :
        (Text → Text → Bool) → Time → Text → Result (List (Message Payload)) → Result (List Claim)
    claims_matching path_match now pattern (err e) = err e
    claims_matching path_match now pattern (ok msgs) = ok (
        filter (λ (c : Claim). resource_matches_pattern path_match pattern c.resource_uri)
          (filter_active_claims json now msgs))

    unfoldable pub active_claims :
        (Text → Text → Bool) → Time → Text → Text → Provider Payload → Result (List Claim)
    active_claims path_match now ns pattern p =
        claims_matching path_match now pattern (query ns all_messages p)

    -- The first loop of `AgentState`.
    unfoldable pub last_seen_from : Text → Time → List (Message Payload) → Time
    last_seen_from agent t [] = t
    last_seen_from agent t (m ∷ msgs) =
        last_seen_from agent
          (if text_eq m.agent_id agent && is_after m.timestamp t then m.timestamp else t) msgs

    abbrev pub state_from : Time → Text → Result (List (Message Payload)) → Result AgentState
    state_from now agent (err e) = err e
    state_from now agent (ok msgs) = ok (record {
      agent_id = agent;
      active_claims =
          map (λ (c : Claim). c.claim_id)
            (filter (λ (c : Claim). text_eq c.agent_id agent) (filter_active_claims json now msgs));
      last_seen = last_seen_from agent zero_time msgs;
    })

    unfoldable pub agent_state : Time → Text → Text → Provider Payload → Result AgentState
    agent_state now ns agent p = state_from now agent (query ns all_messages p)

  -- Expired claims are left in the log and filtered on reading.
  unfoldable pub release_expired :
      Text → Time → Provider Payload → Result (Unit {0}) × Provider Payload
  release_expired ns before p = (ok tt, p)
