-- ===== src/Active/Equivalence.antt =====
-- The two passes of `FilterActiveClaims` against the definition of an active claim,
-- `IsClaimActive` (pkg/hearsay/activeclaims.go).
use hearsay.Base.{
  ◌≡◌, refl, ◌≢◌, ap, ◌∙◌, Bool, true, false, not, ◌&&◌, ◌||◌, List, [], ◌∷◌, Option, none, some,
  arith, All, if◌then◌else◌, Bool-cases, inl, inr,
}
use hearsay.Base.Int.{ℤ, pos, Time, ◌+ℤ◌, ◌≤ℤ◌, ◌<ℤ◌, +ℤ_parts, leb_ℤ, is_after, seconds}
use hearsay.Claims.{Claim}
use hearsay.Provider.{Message, Json}
use hearsay.Active.{
  empty_index, earlier, later, release_id, heartbeat_id, claim_in, names, hides, heartbeat_deadline,
  deadline_of, released_after, extend_deadline, is_claim_active, is_listed, list_claim, first_pass,
  second_pass, filter_active_claims,
}
use hearsay.Active.FirstPass.{
  earliest, latest, latest_step, released-first_pass, last_heartbeats-first_pass,
}

abbrev deadline_at : Claim → Option Time → Time
deadline_at c t = heartbeat_deadline t c (deadline_of c)

module _ (c : Claim) (born : pos 0 ≤ℤ c.created_at) where
  -- One more heartbeat moves the deadline of the map exactly as the running maximum moves.
  deadline_at-later :
      (t : Option Time) (ts : Time)
      → deadline_at c (later t ts) ≡ (
          if is_after (ts +ℤ seconds c.ttl_seconds) (deadline_at c t)
          then ts +ℤ seconds c.ttl_seconds
          else deadline_at c t)
  unfolding later deadline_of
  deadline_at-later none ts =
      ground
        (arith, +ℤ_parts c.created_at (seconds c.ttl_seconds), +ℤ_parts ts (seconds c.ttl_seconds))
  deadline_at-later (some hb) ts = ground (
    arith,
    +ℤ_parts c.created_at (seconds c.ttl_seconds),
    +ℤ_parts ts (seconds c.ttl_seconds),
    +ℤ_parts hb (seconds c.ttl_seconds),
  )

  stale_heartbeat :
      (t : Option Time) (ts : Time)
      → ts ≤ℤ c.created_at
      → is_after (ts +ℤ seconds c.ttl_seconds) (deadline_at c t) ≡ false
  unfolding deadline_of
  stale_heartbeat none ts h =
      ground
        (arith, +ℤ_parts c.created_at (seconds c.ttl_seconds), +ℤ_parts ts (seconds c.ttl_seconds))
  stale_heartbeat (some hb) ts h = ground (
    arith,
    +ℤ_parts c.created_at (seconds c.ttl_seconds),
    +ℤ_parts ts (seconds c.ttl_seconds),
    +ℤ_parts hb (seconds c.ttl_seconds),
  )

if_stale :
    (late fresh : Bool) (a b : Time)
    → (late ≡ false → fresh ≡ false)
    → (if late && true && fresh then a else b) ≡ (if fresh then a else b)
if_stale late fresh a b h = ground arith

abbrev pub IsLater : ℤ → Option ℤ → Type 0
IsLater k none = Unit
IsLater k (some o) = k <ℤ o

IsLater-earlier : (k o : ℤ) (old : Option ℤ) → IsLater k old → k <ℤ o → IsLater k (earlier old o)
unfolding earlier
IsLater-earlier k o none h g = g
IsLater-earlier k o (some x) h g = ground arith

hides-earlier : (k o : ℤ) (old : Option ℤ) → IsLater k old → k <ℤ o → hides (earlier old o) k ≡ true
unfolding earlier
hides-earlier k o none h g = ground arith
hides-earlier k o (some x) h g = ground arith

module _ {Payload : Type 0} (json : Json Payload) where
  -- How a message stands to a claim read at an offset: a release of the claim comes after it, and a
  -- heartbeat before it is no later than the claim.
  pub record Orderly (c : Claim) (offset : ℤ) (m : Message Payload) : Type 0 where
    pub release_later : names c.claim_id (release_id json m) ≡ true → offset <ℤ m.offset
    pub heartbeat_stale :
        names c.claim_id (heartbeat_id json m) ≡ true
        → m.offset ≤ℤ offset
        → m.timestamp ≤ℤ c.created_at

  pub hides-earliest :
      (c : Claim) (k : ℤ) (o : Option ℤ) (msgs : List (Message Payload))
      → IsLater k o
      → All (Orderly c k) msgs
      → hides (earliest json c.claim_id o msgs) k
        ≡ (hides o k || released_after json msgs k c.claim_id)
  unfolding earliest released_after
  hides-earliest c k o [] l h = ground arith
  hides-earliest c k o (m ∷ msgs) l h = elim (Bool-cases (names c.claim_id (release_id json m))) [
    | inl e ↦ rw e (
        ground (
          arith,
          h.0.release_later e,
          hides-earlier k m.offset o l (h.0.release_later e),
          hides-earliest c k (earlier o m.offset) msgs
              (IsLater-earlier k m.offset o l (h.0.release_later e)) h.1,
        ))
    | inr e ↦ rw e (ground (arith, hides-earliest c k o msgs l h.1))
  ]

  step-deadline_at :
      (c : Claim) (k : ℤ) (t : Option Time) (m : Message Payload)
      → pos 0 ≤ℤ c.created_at
      → Orderly c k m
      → let hb_deadline = m.timestamp +ℤ seconds c.ttl_seconds in
        (if not (leb_ℤ m.offset k)
            && names c.claim_id (heartbeat_id json m)
            && is_after hb_deadline (deadline_at c t)
          then hb_deadline
          else deadline_at c t)
        ≡ deadline_at c (latest_step json c.claim_id t m)
  step-deadline_at c k t m born h = elim (Bool-cases (names c.claim_id (heartbeat_id json m))) [
    | inl e ↦
        rw (e, deadline_at-later c born t m.timestamp)
          (if_stale (not (leb_ℤ m.offset k)) _ _ _
            (λ early. stale_heartbeat c born t m.timestamp (h.heartbeat_stale e (ground arith))))
    | inr e ↦ rw e (ground arith)
  ]

  extend_deadline-latest :
      (c : Claim) (k : ℤ) (t : Option Time) (msgs : List (Message Payload))
      → pos 0 ≤ℤ c.created_at
      → All (Orderly c k) msgs
      → extend_deadline json msgs k c (deadline_at c t)
        ≡ deadline_at c (latest json c.claim_id t msgs)
  unfolding extend_deadline latest
  extend_deadline-latest c k t [] born h = refl
  extend_deadline-latest c k t (m ∷ msgs) born h =
      ap (extend_deadline json msgs k c) (step-deadline_at c k t m born h.0)
      ∙ extend_deadline-latest c k (latest_step json c.claim_id t m) msgs born h.1

  is_claim_active-is_listed :
      (now : Time) (c : Claim) (k : ℤ) (msgs : List (Message Payload))
      → c.claim_id ≢ []
      → pos 0 ≤ℤ c.created_at
      → All (Orderly c k) msgs
      → is_listed now (first_pass json empty_index msgs) k c ≡ is_claim_active json now msgs k c now
  unfolding is_listed is_claim_active
  is_claim_active-is_listed now c k msgs named born h =
      rw
        (
          released-first_pass json c.claim_id empty_index msgs named,
          last_heartbeats-first_pass json c.claim_id empty_index msgs named,
          hides-earliest c k none msgs tt h,
          ← extend_deadline-latest c k none msgs born h,
        )
        (ground arith)

  -- A claim read from the log: it has an id, it is not older than the zero instant, and every
  -- message of the log stands to it in order.
  abbrev pub IsOrderlyClaim : List (Message Payload) → ℤ → Option Claim → Type 0
  IsOrderlyClaim log k none = Unit
  IsOrderlyClaim log k (some c) =
      (c.claim_id ≢ []) × (pos 0 ≤ℤ c.created_at) × All (Orderly c k) log

  abbrev pub IsOrderlyLog : List (Message Payload) → Type 0
  IsOrderlyLog log = All (λ m. IsOrderlyClaim log m.offset (claim_in json m)) log

  abbrev pick : Time → List (Message Payload) → ℤ → Option Claim → List Claim → List Claim
  pick now log k none rest = rest
  pick now log k (some c) rest = if is_claim_active json now log k c now then c ∷ rest else rest

  -- The claims among `msgs` that `IsClaimActive` finds active in `log`, in order.
  pub active_in : Time → List (Message Payload) → List (Message Payload) → List Claim
  active_in now log [] = []
  active_in now log (m ∷ msgs) = pick now log m.offset (claim_in json m) (active_in now log msgs)

  list_claim-pick :
      (now : Time) (log : List (Message Payload)) (k : ℤ) (o : Option Claim) (rest : List Claim)
      → IsOrderlyClaim log k o
      → list_claim now (first_pass json empty_index log) k o rest ≡ pick now log k o rest
  list_claim-pick now log k none rest h = refl
  list_claim-pick now log k (some c) rest (named, born, h) =
      rw (is_claim_active-is_listed now c k log named born h)

  second_pass-active_in :
      (now : Time) (log msgs : List (Message Payload))
      → All (λ m. IsOrderlyClaim log m.offset (claim_in json m)) msgs
      → second_pass json now (first_pass json empty_index log) msgs ≡ active_in now log msgs
  unfolding second_pass active_in
  second_pass-active_in now log [] h = refl
  second_pass-active_in now log (m ∷ msgs) h =
      list_claim-pick now log m.offset (claim_in json m) _ h.0
      ∙ ap (pick now log m.offset (claim_in json m)) (second_pass-active_in now log msgs h.1)

  -- On a log in which each claim has an id that is not empty and was created no earlier than the
  -- zero time, every release or transfer of its id comes after it, and no heartbeat for its id that
  -- does not come after it has a time later than its creation, the two passes list exactly, in the
  -- order of the log, the claims that `IsClaimActive` finds active at the same time.
  pub filter_active_claims-active_in :
      (now : Time) (log : List (Message Payload))
      → IsOrderlyLog log
      → filter_active_claims json now log ≡ active_in now log log
  unfolding filter_active_claims
  filter_active_claims-active_in now log h = second_pass-active_in now log log h
