-- ===== src/Sqlite/Log.antt =====
-- internal/sqlite/sqlite.go: the message log, its queries, and the views of claims and agents.
use hearsay.Base.{
  ℕ, suc, Bool, false, ◌&&◌, ◌||◌, List, [], ◌∷◌, Option, none, some, map, filter, is_empty,
  if◌then◌else◌,
}
use hearsay.Base.Int.{ℤ, pos, Time, ◌+ℤ◌, wrap64, seconds, eq_ℤ, ltb_ℤ, is_before, is_zero}
use hearsay.Base.Text.{Text, text_eq}
use hearsay.Claims.{Claim}
use hearsay.Provider.{
  Message, MessageType, msg_claim, msg_release, msg_transfer, type_eq, QueryOpts, AgentState, Json,
  Result, ok, err, provider_failure,
}
use hearsay.Memory.Log.{contains_type, all_messages, claims_matching, state_from}
use hearsay.Sqlite.{Row, Tables}
use hearsay.Sql.{
  Session, ◌>>=◌, ◌>>◌, pure, gives, statement, replaced, in_tx, insert_row, delete_where, order_by,
  limit_rows, next_of,
}

abbrev pub claim_types : List MessageType
claim_types = msg_claim ∷ msg_release ∷ msg_transfer ∷ []

module _ {Payload : Type 0} where
  abbrev pub is_in : Text → Row Payload → Bool
  is_in ns r = text_eq r.namespace ns

  abbrev pub rows_in : Text → Tables Payload → List (Row Payload)
  rows_in ns t = filter (is_in ns) t.messages

  -- The key of the table.
  abbrev pub same_key : Row Payload → Row Payload → Bool
  same_key a b = text_eq b.namespace a.namespace && eq_ℤ a.offset b.offset

  -- The values that the loop of `Append` inserts for one message.
  unfoldable pub new_row : Time → Text → ℤ → ℤ → Message Payload → Row Payload
  new_row now ns offset seq m = record {
    namespace = ns;
    offset = offset;
    seq = some seq;
    type = m.type;
    agent_id = m.agent_id;
    payload = m.payload;
    timestamp = if is_zero m.timestamp then now else m.timestamp;
  }

  abbrev pub with_messages : Tables Payload → Result (List (Row Payload)) → Result (Tables Payload)
  with_messages t (ok rows) = ok (record t { messages = rows })
  with_messages t (err e) = err e

  abbrev pub insert_message : Row Payload → Session (Tables Payload) (Unit {0})
  insert_message r t = replaced t (with_messages t (insert_row same_key r t.messages))

  -- The conditions that `Query` puts behind WHERE.
  unfoldable pub is_selected : Text → QueryOpts → Row Payload → Bool
  is_selected ns opts r =
      is_in ns r
      && ltb_ℤ opts.since r.offset
      && (is_empty opts.types || contains_type opts.types r.type)
      && (text_eq opts.agent_id [] || text_eq r.agent_id opts.agent_id)

  unfoldable pub message_of : Text → Row Payload → Message Payload
  message_of ns r = record {
    offset = r.offset;
    type = r.type;
    namespace = ns;
    agent_id = r.agent_id;
    payload = r.payload;
    timestamp = r.timestamp;
  }

  abbrev pub next_offset : Text → Tables Payload → Result ℤ
  next_offset ns t = next_of (map (λ (r : Row Payload). some r.offset) (rows_in ns t))

  abbrev pub next_seq : Text → Tables Payload → Result ℤ
  next_seq ns t = next_of (map (λ (r : Row Payload). r.seq) (rows_in ns t))

  module _ (refuses : ℕ → Bool) where
    -- The loop of `Append`, from the statement `n`; it gives the number of the next statement.
    unfoldable pub insert_all :
        Time → Text → ℕ → ℤ → ℤ → List (Message Payload) → Session (Tables Payload) ℕ
    insert_all now ns n offset seq [] = pure n
    insert_all now ns n offset seq (m ∷ msgs) = do
      statement refuses n (insert_message (new_row now ns offset seq m))
      insert_all now ns (suc n) (wrap64 (offset +ℤ pos 1)) (wrap64 (seq +ℤ pos 1)) msgs

    -- The statement 3 prepares the insertion.
    unfoldable pub append :
        Time → Text → List (Message Payload) → Session (Tables Payload) (Unit {0})
    append now ns msgs = in_tx refuses (do
      offset ← statement refuses 1 (gives (next_offset ns))
      seq ← statement refuses 2 (gives (next_seq ns))
      statement refuses 3 (pure tt)
      insert_all now ns 4 offset seq msgs)

    unfoldable pub query : Text → QueryOpts → Tables Payload → Result (List (Message Payload))
    query ns opts t =
        if refuses 0
        then err provider_failure
        else ok (
            map (message_of ns) (
              limit_rows opts.limit (
                order_by (λ (r : Row Payload). r.offset)
                  (filter (is_selected ns opts) t.messages))))

    module _ (json : Json Payload) where
      unfoldable pub active_claims :
          (Text → Text → Bool) → Time → Text → Text → Tables Payload → Result (List Claim)
      active_claims path_match now ns pattern t =
          claims_matching json path_match now pattern
            (query ns (record all_messages { types = claim_types }) t)

      unfoldable pub agent_state : Time → Text → Text → Tables Payload → Result AgentState
      agent_state now ns agent t = state_from json now agent (query ns all_messages t)

      -- The first loop of `ReleaseExpired`: the offsets of the claims that ended before `before`.
      abbrev pub has_ended : Time → Option Claim → Bool
      has_ended before none = false
      has_ended before (some c) = is_before (c.created_at +ℤ seconds c.ttl_seconds) before

      unfoldable pub expired_offsets : Time → List (Row Payload) → List ℤ
      expired_offsets before [] = []
      expired_offsets before (r ∷ rows) =
          let rest = expired_offsets before rows in
          if type_eq r.type msg_claim && has_ended before (json.decode_claim r.payload)
          then r.offset ∷ rest
          else rest

      -- Its second loop, from the statement `n`.
      unfoldable pub delete_offsets : Text → ℕ → List ℤ → Session (Tables Payload) (Unit {0})
      delete_offsets ns n [] = pure tt
      delete_offsets ns n (o ∷ offsets) = do
        statement refuses n (λ t. (
          ok tt,
          record t {
            messages = delete_where (λ (r : Row Payload). is_in ns r && eq_ℤ r.offset o) t.messages;
          },
        ))
        delete_offsets ns (suc n) offsets

      unfoldable pub release_expired : Text → Time → Session (Tables Payload) (Unit {0})
      release_expired ns before = do
        offsets ← statement refuses 0 (gives (λ t. ok (expired_offsets before (rows_in ns t))))
        delete_offsets ns 1 offsets
