-- ===== src/Active/Endings.antt =====
-- Releases, early releases and heartbeats, as `FilterActiveClaims` takes them
-- (pkg/hearsay/activeclaims.go).
use hearsay.Base.{
  ◌≡◌, refl, ◌≢◌, true, false, List, [], ◌∷◌, Option, none, some, arith, In, Bool-cases, inl, inr,
}
use hearsay.Base.Int.{ℤ, pos, Time, ◌+ℤ◌, ◌≤ℤ◌, ◌<ℤ◌, +ℤ_parts, is_after, seconds}
use hearsay.Base.Text.{Text}
use hearsay.Claims.{Claim}
use hearsay.Provider.{Message, Json}
use hearsay.Active.{
  empty_index, earlier, later, release_id, heartbeat_id, claim_in, names, hides, heartbeat_deadline,
  deadline_of, released_after, is_claim_active, is_listed, first_pass, filter_active_claims,
}
use hearsay.Active.FirstPass.{
  earliest, latest, earliest_step, latest_step, released-first_pass, last_heartbeats-first_pass,
}
use hearsay.Active.Listing.{IsHeld, listed_second_pass, not-hides-first_pass, deadline_only_grows}

abbrev IsBelow : ℤ → Option ℤ → Type 0
IsBelow k none = ⊥
IsBelow k (some o) = o ≤ℤ k

IsBelow-earlier : (k o : ℤ) (old : Option ℤ) → IsBelow k old → IsBelow k (earlier old o)
unfolding earlier
IsBelow-earlier k o none h = absurd h
IsBelow-earlier k o (some x) h = ground arith

IsBelow-new : (k o : ℤ) (old : Option ℤ) → o ≤ℤ k → IsBelow k (earlier old o)
unfolding earlier
IsBelow-new k o none h = h
IsBelow-new k o (some x) h = ground arith

not-hides_below : (k : ℤ) (o : Option ℤ) → IsBelow k o → hides o k ≡ false
not-hides_below k none h = absurd h
not-hides_below k (some o) h = ground arith

abbrev Reaches : Time → Option Time → Type 0
Reaches t none = ⊥
Reaches t (some x) = t ≤ℤ x

Reaches-later : (t u : Time) (old : Option Time) → Reaches t old → Reaches t (later old u)
unfolding later
Reaches-later t u none h = absurd h
Reaches-later t u (some x) h = ground arith

Reaches-new : (t : Time) (old : Option Time) → pos 0 <ℤ t → Reaches t (later old t)
unfolding later
Reaches-new t none h = ground arith
Reaches-new t (some x) h = ground arith

alive_after_heartbeat :
    (now t : Time) (o : Option Time) (c : Claim)
    → Reaches t o
    → now ≤ℤ t +ℤ seconds c.ttl_seconds
    → is_after now (heartbeat_deadline o c (deadline_of c)) ≡ false
unfolding deadline_of
alive_after_heartbeat now t none c r h = absurd r
alive_after_heartbeat now t (some hb) c r h = ground (
  arith,
  +ℤ_parts t (seconds c.ttl_seconds),
  +ℤ_parts hb (seconds c.ttl_seconds),
  +ℤ_parts c.created_at (seconds c.ttl_seconds),
)

module _ {Payload : Type 0} (json : Json Payload) where
  earliest-IsBelow :
      (k : Text) (o : ℤ) (old : Option ℤ) (msgs : List (Message Payload))
      → IsBelow o old
      → IsBelow o (earliest json k old msgs)
  unfolding earliest
  earliest-IsBelow k o old [] h = h
  earliest-IsBelow k o old (r ∷ msgs) h = elim (Bool-cases (names k (release_id json r))) [
    | inl e ↦
        rw e (earliest-IsBelow k o (earlier old r.offset) msgs (IsBelow-earlier o r.offset old h))
    | inr e ↦ rw e (earliest-IsBelow k o old msgs h)
  ]

  earliest_of_In :
      (k : Text) (o : ℤ) (r : Message Payload) (old : Option ℤ) (msgs : List (Message Payload))
      → In r msgs
      → names k (release_id json r) ≡ true
      → r.offset ≤ℤ o
      → IsBelow o (earliest json k old msgs)
  unfolding earliest
  earliest_of_In k o r old [] i e h = absurd i
  earliest_of_In k o r old (x ∷ msgs) (inl q) e h =
      rw (← q, e) (earliest-IsBelow k o (earlier old r.offset) msgs (IsBelow-new o r.offset old h))
  earliest_of_In k o r old (x ∷ msgs) (inr i) e h =
      earliest_of_In k o r (earliest_step json k old x) msgs i e h

  latest-Reaches :
      (k : Text) (t : Time) (old : Option Time) (msgs : List (Message Payload))
      → Reaches t old
      → Reaches t (latest json k old msgs)
  unfolding latest
  latest-Reaches k t old [] h = h
  latest-Reaches k t old (r ∷ msgs) h = elim (Bool-cases (names k (heartbeat_id json r))) [
    | inl e ↦
        rw e (latest-Reaches k t (later old r.timestamp) msgs (Reaches-later t r.timestamp old h))
    | inr e ↦ rw e (latest-Reaches k t old msgs h)
  ]

  latest_of_In :
      (k : Text) (r : Message Payload) (old : Option Time) (msgs : List (Message Payload))
      → In r msgs
      → names k (heartbeat_id json r) ≡ true
      → pos 0 <ℤ r.timestamp
      → Reaches r.timestamp (latest json k old msgs)
  unfolding latest
  latest_of_In k r old [] i e h = absurd i
  latest_of_In k r old (x ∷ msgs) (inl q) e h =
      rw (← q, e)
        (latest-Reaches k r.timestamp (later old r.timestamp) msgs (Reaches-new r.timestamp old h))
  latest_of_In k r old (x ∷ msgs) (inr i) e h =
      latest_of_In k r (latest_step json k old x) msgs i e h

  released_after_of_In :
      (k : ℤ) (id : Text) (r : Message Payload) (msgs : List (Message Payload))
      → In r msgs
      → names id (release_id json r) ≡ true
      → k <ℤ r.offset
      → released_after json msgs k id ≡ true
  unfolding released_after
  released_after_of_In k id r [] i e h = absurd i
  released_after_of_In k id r (x ∷ msgs) (inl q) e h = rw (← q, e) (ground arith)
  released_after_of_In k id r (x ∷ msgs) (inr i) e h =
      ground (arith, released_after_of_In k id r msgs i e h)

  -- A heartbeat for a held claim has it listed for a whole TTL from the heartbeat on, also where
  -- the claim's time had passed before the heartbeat came.
  pub heartbeat_extends :
      (now : Time) (log : List (Message Payload)) (m h : Message Payload) (c : Claim)
      → IsHeld json log m c
      → In h log
      → names c.claim_id (heartbeat_id json h) ≡ true
      → pos 0 <ℤ h.timestamp
      → now ≤ℤ h.timestamp +ℤ seconds c.ttl_seconds
      → In c (filter_active_claims json now log)
  unfolding filter_active_claims is_listed
  heartbeat_extends now log m h c held i e young le =
      listed_second_pass json now (first_pass json empty_index log) c m log held.in_log
        held.is_claim
        (rw
          (
            not-hides-first_pass json c.claim_id m.offset log held.named held.unreleased,
            last_heartbeats-first_pass json c.claim_id empty_index log held.named,
            alive_after_heartbeat now h.timestamp (latest json c.claim_id none log) c
                (latest_of_In c.claim_id h none log i e young) le,
          )
          refl)

  -- Where a release of an id stands before the claim that carries it, a release after the claim is
  -- lost on `FilterActiveClaims`, which still lists the claim until its time has passed, while
  -- `IsClaimActive` finds it released.
  pub early_release_masks :
      (now : Time) (log : List (Message Payload)) (early late m : Message Payload) (c : Claim)
      → c.claim_id ≢ []
      → In m log
      → claim_in json m ≡ some c
      → In early log
      → names c.claim_id (release_id json early) ≡ true
      → early.offset ≤ℤ m.offset
      → In late log
      → names c.claim_id (release_id json late) ≡ true
      → m.offset <ℤ late.offset
      → now ≤ℤ deadline_of c
      → In c (filter_active_claims json now log)
        × (is_claim_active json now log m.offset c now ≡ false)
  unfolding filter_active_claims is_listed is_claim_active
  early_release_masks now log early late m c named im cm ie ne le il nl ll alive = (
    listed_second_pass json now (first_pass json empty_index log) c m log im cm (
        rw
          (
            released-first_pass json c.claim_id empty_index log named,
            not-hides_below m.offset (earliest json c.claim_id none log)
                (earliest_of_In c.claim_id m.offset early none log ie ne le),
            deadline_only_grows now ((first_pass json empty_index log).last_heartbeats c.claim_id) c
                (ground arith),
          )
          refl),
    rw (released_after_of_In m.offset c.claim_id late log il nl ll) refl,
  )
