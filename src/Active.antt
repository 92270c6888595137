-- ===== src/Active.antt =====
-- pkg/hearsay/activeclaims.go: which claims of a message log are active.
-- `now` is the value of `time.Now()` in the call.
pub mod FirstPass
pub mod Equivalence
pub mod Listing
pub mod Endings
pub mod Release
use hearsay.Base.{ℕ, Bool, true, false, not, ◌&&◌, List, [], ◌∷◌, Option, none, some, if◌then◌else◌}
use hearsay.Base.Int.{ℤ, Time, ◌+ℤ◌, leb_ℤ, ltb_ℤ, is_after, is_zero, zero_time, seconds}
use hearsay.Base.Text.{Text, text_eq}
use hearsay.Claims.{Claim}
use hearsay.Provider.{
  MessageType, msg_claim, msg_heartbeat, msg_release, msg_transfer, Message, Json,
}

unfoldable pub is_release : MessageType → Bool
is_release msg_release = true
is_release msg_transfer = true
is_release _ = false

unfoldable pub is_heartbeat : MessageType → Bool
is_heartbeat msg_heartbeat = true
is_heartbeat _ = false

unfoldable pub is_claim : MessageType → Bool
is_claim msg_claim = true
is_claim _ = false

abbrev pub or_zero : Option Time → Time
or_zero none = zero_time
or_zero (some t) = t

-- The two maps of the first pass of `FilterActiveClaims`.
pub record Index : Type 0 where
  pub released : Text → Option ℤ
  pub last_heartbeats : Text → Option Time

abbrev pub empty_index : Index
empty_index = record { released = λ k. none; last_heartbeats = λ k. none }

-- The entry of `released` for one id, after a release at an offset.
unfoldable pub earlier : Option ℤ → ℤ → Option ℤ
earlier none o = some o
earlier (some old) o = if ltb_ℤ o old then some o else some old

-- The entry of `lastHeartbeats` for one id, after a heartbeat at a time.
unfoldable pub later : Option Time → Time → Option Time
later old t = if is_after t (or_zero old) then some t else old

unfoldable pub deadline_of : Claim → Time
deadline_of c = c.created_at +ℤ seconds c.ttl_seconds

abbrev pub names : Text → Option Text → Bool
names k none = false
names k (some j) = text_eq j k

abbrev set_released : Index → Option Text → ℤ → Index
set_released idx none o = idx
set_released idx (some []) o = idx
set_released idx (some (c ∷ k)) o = record idx {
  released = λ j. if text_eq (c ∷ k) j then earlier (idx.released j) o else idx.released j;
}

abbrev set_heartbeat : Index → Option Text → Time → Index
set_heartbeat idx none t = idx
set_heartbeat idx (some []) t = idx
set_heartbeat idx (some (c ∷ k)) t = record idx {
  last_heartbeats =
      λ j. if text_eq (c ∷ k) j then later (idx.last_heartbeats j) t else idx.last_heartbeats j;
}

abbrev pub hides : Option ℤ → ℤ → Bool
hides none offset = false
hides (some o) offset = ltb_ℤ offset o

abbrev pub heartbeat_deadline : Option Time → Claim → Time → Time
heartbeat_deadline none c deadline = deadline
heartbeat_deadline (some hb) c deadline =
    let hb_deadline = hb +ℤ seconds c.ttl_seconds in
    if is_after hb c.created_at && is_after hb_deadline deadline then hb_deadline else deadline

-- The tests of the second pass on a claim read at an offset.
unfoldable pub is_listed : Time → Index → ℤ → Claim → Bool
is_listed now idx offset c =
    if hides (idx.released c.claim_id) offset
    then false
    else not (is_after now (heartbeat_deadline (idx.last_heartbeats c.claim_id) c (deadline_of c)))

abbrev list_claim : Time → Index → ℤ → Option Claim → List Claim → List Claim
list_claim now idx offset none rest = rest
list_claim now idx offset (some c) rest = if is_listed now idx offset c then c ∷ rest else rest

module _ {Payload : Type 0} (json : Json Payload) where
  -- The id that a release or a transfer names, if the message is one and its payload is readable.
  unfoldable pub release_id : Message Payload → Option Text
  release_id m = if is_release m.type then json.decode_claim_id m.payload else none

  unfoldable pub heartbeat_id : Message Payload → Option Text
  heartbeat_id m = if is_heartbeat m.type then json.decode_claim_id m.payload else none

  unfoldable pub claim_in : Message Payload → Option Claim
  claim_in m = if is_claim m.type then json.decode_claim m.payload else none

  -- The first loop of `IsClaimActive`.
  unfoldable pub released_after : List (Message Payload) → ℤ → Text → Bool
  released_after [] claim_offset k = false
  released_after (m ∷ msgs) claim_offset k =
      let rest = released_after msgs claim_offset k in
      if leb_ℤ m.offset claim_offset then rest else if names k (release_id m) then true else rest

  -- Its second loop, from the deadline found so far.
  unfoldable pub extend_deadline : List (Message Payload) → ℤ → Claim → Time → Time
  extend_deadline [] claim_offset claim deadline = deadline
  extend_deadline (m ∷ msgs) claim_offset claim deadline =
      let hb_deadline = m.timestamp +ℤ seconds claim.ttl_seconds in
      extend_deadline msgs claim_offset claim (
        if not (leb_ℤ m.offset claim_offset)
          && names claim.claim_id (heartbeat_id m)
          && is_after hb_deadline deadline
        then hb_deadline
        else deadline)

  unfoldable pub is_claim_active : Time → List (Message Payload) → ℤ → Claim → Time → Bool
  is_claim_active now msgs claim_offset claim max_age_since =
      let at = if is_zero max_age_since then now else max_age_since in
      if released_after msgs claim_offset claim.claim_id
      then false
      else not (is_after at (extend_deadline msgs claim_offset claim (deadline_of claim)))

  -- The body of the first pass.
  unfoldable pub index_message : Index → Message Payload → Index
  index_message idx m =
      set_heartbeat (set_released idx (release_id m) m.offset) (heartbeat_id m) m.timestamp

  unfoldable pub first_pass : Index → List (Message Payload) → Index
  first_pass idx [] = idx
  first_pass idx (m ∷ msgs) = first_pass (index_message idx m) msgs

  unfoldable pub second_pass : Time → Index → List (Message Payload) → List Claim
  second_pass now idx [] = []
  second_pass now idx (m ∷ msgs) =
      list_claim now idx m.offset (claim_in m) (second_pass now idx msgs)

  unfoldable pub filter_active_claims : Time → List (Message Payload) → List Claim
  filter_active_claims now msgs = second_pass now (first_pass empty_index msgs) msgs
