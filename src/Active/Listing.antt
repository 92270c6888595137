-- ===== src/Active/Listing.antt =====
-- When `FilterActiveClaims` lists a claim of the log (pkg/hearsay/activeclaims.go).
use hearsay.Base.{
  ◌≡◌, refl, ◌≢◌, true, false, List, [], ◌∷◌, Option, none, some, arith, All, In, Bool-cases, inl,
  inr,
}
use hearsay.Base.Int.{ℤ, Time, ◌≤ℤ◌, is_after}
use hearsay.Base.Text.{Text}
use hearsay.Claims.{Claim}
use hearsay.Provider.{Message, Json}
use hearsay.Active.{
  Index, empty_index, earlier, release_id, claim_in, names, hides, heartbeat_deadline, deadline_of,
  is_listed, list_claim, first_pass, second_pass, filter_active_claims,
}
use hearsay.Active.FirstPass.{earliest, released-first_pass}

abbrev IsWithin : ℤ → Option ℤ → Type 0
IsWithin k none = Unit
IsWithin k (some o) = o ≤ℤ k

IsWithin-earlier : (k o : ℤ) (old : Option ℤ) → IsWithin k old → o ≤ℤ k → IsWithin k (earlier old o)
unfolding earlier
IsWithin-earlier k o none h g = g
IsWithin-earlier k o (some x) h g = ground arith

not-hides : (k : ℤ) (o : Option ℤ) → IsWithin k o → hides o k ≡ false
not-hides k none h = refl
not-hides k (some o) h = ground arith

list_claim_keeps :
    (now : Time) (idx : Index) (k : ℤ) (c : Claim) (o : Option Claim) (rest : List Claim)
    → In c rest
    → In c (list_claim now idx k o rest)
list_claim_keeps now idx k c none rest m = m
list_claim_keeps now idx k c (some d) rest m = elim (Bool-cases (is_listed now idx k d)) [
  | inl e ↦ rw e (inr m)
  | inr e ↦ rw e m
]

module _ {Payload : Type 0} (json : Json Payload) where
  pub listed_second_pass :
      (now : Time) (idx : Index) (c : Claim) (m : Message Payload) (msgs : List (Message Payload))
      → In m msgs
      → claim_in json m ≡ some c
      → is_listed now idx m.offset c ≡ true
      → In c (second_pass json now idx msgs)
  unfolding second_pass
  listed_second_pass now idx c m [] i e h = absurd i
  listed_second_pass now idx c m (x ∷ msgs) (inl q) e h = rw (← q, e, h) (inl refl)
  listed_second_pass now idx c m (x ∷ msgs) (inr i) e h =
      list_claim_keeps now idx x.offset c (claim_in json x) (second_pass json now idx msgs)
        (listed_second_pass now idx c m msgs i e h)

  -- A claim that is listed stands in the log and passes the tests of the second pass.
  pub of_listed_second_pass :
      (now : Time) (idx : Index) (c : Claim) (msgs : List (Message Payload))
      → In c (second_pass json now idx msgs)
      → (m : Message Payload) × In m msgs
        × (claim_in json m ≡ some c)
        × (is_listed now idx m.offset c ≡ true)
  unfolding second_pass
  of_listed_second_pass now idx c [] i = absurd i
  of_listed_second_pass now idx c (x ∷ msgs) i =
      split (claim_in json x) refl (of_listed_second_pass now idx c msgs) i
    where
      split :
          (o : Option Claim)
          → claim_in json x ≡ o
          → (In c (second_pass json now idx msgs)
              → (m : Message Payload) × In m msgs
                × (claim_in json m ≡ some c)
                × (is_listed now idx m.offset c ≡ true))
          → In c (list_claim now idx x.offset o (second_pass json now idx msgs))
          → (m : Message Payload) × In m (x ∷ msgs)
            × (claim_in json m ≡ some c)
            × (is_listed now idx m.offset c ≡ true)
      split none e ih i' = let (m, n, q, l) = ih i' in (m, inr n, q, l)
      split (some d) e ih i' = elim (Bool-cases (is_listed now idx x.offset d)) [
        | inl l ↦ elim (rw l at i') [
          | inl q ↦ (x, inl refl, rw q e, rw q l)
          | inr r ↦ let (m, n, q, l') = ih r in (m, inr n, q, l')
        ]
        | inr l ↦ let (m, n, q, l') = ih (rw l at i') in (m, inr n, q, l')
      ]

  earliest-IsWithin :
      (k : Text) (o : ℤ) (old : Option ℤ) (msgs : List (Message Payload))
      → IsWithin o old
      → All (λ r. names k (release_id json r) ≡ true → r.offset ≤ℤ o) msgs
      → IsWithin o (earliest json k old msgs)
  unfolding earliest
  earliest-IsWithin k o old [] w h = w
  earliest-IsWithin k o old (r ∷ msgs) w h = elim (Bool-cases (names k (release_id json r))) [
    | inl e ↦ rw e (
        earliest-IsWithin k o (earlier old r.offset) msgs
          (IsWithin-earlier o r.offset old w (h.0 e)) h.1)
    | inr e ↦ rw e (earliest-IsWithin k o old msgs w h.1)
  ]

  pub not-hides-first_pass :
      (k : Text) (o : ℤ) (msgs : List (Message Payload))
      → k ≢ []
      → All (λ r. names k (release_id json r) ≡ true → r.offset ≤ℤ o) msgs
      → hides ((first_pass json empty_index msgs).released k) o ≡ false
  not-hides-first_pass k o msgs named h =
      rw (released-first_pass json k empty_index msgs named)
        (not-hides o (earliest json k none msgs) (earliest-IsWithin k o none msgs tt h))

  -- A claim with an id, read from a message of the log that no release or transfer follows.
  pub record IsHeld (log : List (Message Payload)) (m : Message Payload) (c : Claim) : Type 0 where
    pub in_log : In m log
    pub is_claim : claim_in json m ≡ some c
    pub named : c.claim_id ≢ []
    pub unreleased :
        All (λ r. names c.claim_id (release_id json r) ≡ true → r.offset ≤ℤ m.offset) log

pub deadline_only_grows :
    (now : Time) (t : Option Time) (c : Claim)
    → is_after now (deadline_of c) ≡ false
    → is_after now (heartbeat_deadline t c (deadline_of c)) ≡ false
deadline_only_grows now none c h = h
deadline_only_grows now (some hb) c h = ground arith

module _ {Payload : Type 0} (json : Json Payload) where
  -- A held claim is listed until its TTL has passed.
  pub listed_of_held :
      (now : Time) (log : List (Message Payload)) (m : Message Payload) (c : Claim)
      → IsHeld json log m c
      → now ≤ℤ deadline_of c
      → In c (filter_active_claims json now log)
  unfolding filter_active_claims is_listed
  listed_of_held now log m c h le =
      listed_second_pass json now (first_pass json empty_index log) c m log h.in_log h.is_claim (
        rw
          (
            not-hides-first_pass json c.claim_id m.offset log h.named h.unreleased,
            deadline_only_grows now ((first_pass json empty_index log).last_heartbeats c.claim_id) c
                (ground arith),
          )
          refl)
