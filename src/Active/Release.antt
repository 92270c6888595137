-- ===== src/Active/Release.antt =====
-- A release at the end of the log (pkg/hearsay/activeclaims.go).
use mathlib.Core.List.{append-nil}
use mathlib.Core.Bool.{false≢true}
use hearsay.Base.{
  ◌≡◌, refl, ◌≢◌, sym, ap, ◌∙◌, true, false, List, [], ◌∷◌, ◌++◌, Option, none, some, arith, All,
  In, inl, inr, All_get, In-append, Bool-cases,
}
use hearsay.Base.Int.{ℤ, Time, ◌<ℤ◌, ltb_ℤ}
use hearsay.Base.Text.{Text}
use hearsay.Claims.{Claim}
use hearsay.Provider.{Message, Json}
use hearsay.Active.{
  Index, empty_index, earlier, is_release, is_claim, release_id, claim_in, names, hides, is_listed,
  first_pass, filter_active_claims,
}
use hearsay.Active.FirstPass.{earliest, earliest_step, released-first_pass}
use hearsay.Active.Listing.{of_listed_second_pass}

hidden_not_listed :
    (now : Time) (idx : Index) (k : ℤ) (c : Claim)
    → hides (idx.released c.claim_id) k ≡ true
    → is_listed now idx k c ≡ false
unfolding is_listed
hidden_not_listed now idx k c h = rw h

not_earlier : (o x : ℤ) → o <ℤ x → ltb_ℤ x o ≡ false
not_earlier o x h = ground arith

module _ {Payload : Type 0} (json : Json Payload) (id : Text) (r : Message Payload) where
  earliest-last :
      (log : List (Message Payload))
      → All (λ x. names id (release_id json x) ≡ false) log
      → names id (release_id json r) ≡ true
      → earliest json id none (log ++ (r ∷ [])) ≡ some r.offset
  unfolding earliest earlier
  earliest-last [] h e = rw e
  earliest-last (x ∷ log) h e = rw (earliest, h.0) (earliest-last log h.1 e)

  release-not-claim : names id (release_id json r) ≡ true → (c : Claim) → claim_in json r ≢ some c
  unfolding release_id claim_in is_release is_claim
  release-not-claim e c q = ground arith

  hidden : (k : ℤ) → k <ℤ r.offset → hides (some r.offset) k ≡ true
  hidden k h = ground arith

  earliest-kept :
      (o : ℤ) (more : List (Message Payload))
      → All (λ x. o <ℤ x.offset) more
      → earliest json id (some o) more ≡ some o
  unfolding earliest earlier
  earliest-kept o [] h = refl
  earliest-kept o (x ∷ more) h = elim (Bool-cases (names id (release_id json x))) [
    | inl e ↦ rw (e, not_earlier o x.offset h.0) (earliest-kept o more h.1)
    | inr e ↦ rw e (earliest-kept o more h.1)
  ]

  earliest-append :
      (o : Option ℤ) (xs more : List (Message Payload))
      → earliest json id o (xs ++ more) ≡ earliest json id (earliest json id o xs) more
  unfolding earliest
  earliest-append o [] more = refl
  earliest-append o (x ∷ xs) more = earliest-append (earliest_step json id o x) xs more

  -- The first release hides the claims before it, whatever is written behind it.
  pub earliest-release :
      (log more : List (Message Payload))
      → All (λ x. names id (release_id json x) ≡ false) log
      → names id (release_id json r) ≡ true
      → All (λ x. r.offset <ℤ x.offset) more
      → earliest json id none ((log ++ (r ∷ [])) ++ more) ≡ some r.offset
  earliest-release log more h e behind =
      earliest-append none (log ++ (r ∷ [])) more
      ∙ (ap (λ o. earliest json id o more) (earliest-last log h e)
          ∙ earliest-kept r.offset more behind)

  -- Behind the first release of an id, at an offset above all before it, what is written later at
  -- offsets above its own brings a claim with that id back only by another claim with that id.
  pub stays_released :
      (now : Time) (log more : List (Message Payload)) (c : Claim)
      → id ≢ []
      → All (λ x. names id (release_id json x) ≡ false) log
      → All (λ x. x.offset <ℤ r.offset) log
      → names id (release_id json r) ≡ true
      → All (λ x. r.offset <ℤ x.offset) more
      → All (λ x. (d : Claim) → claim_in json x ≡ some d → d.claim_id ≢ id) more
      → In c (filter_active_claims json now ((log ++ (r ∷ [])) ++ more))
      → c.claim_id ≢ id
  unfolding filter_active_claims is_listed
  stays_released now log more c named fresh last e behind unclaimed i same =
      let all = (log ++ (r ∷ [])) ++ more in
      let (m, im, cm, l) =
        of_listed_second_pass json now (first_pass json empty_index all) c all i in
      elim (In-append m (log ++ (r ∷ [])) more im) [
        | inr new ↦
            All_get (λ x. (d : Claim) → claim_in json x ≡ some d → d.claim_id ≢ id) m more unclaimed
              new c cm same
        | inl im2 ↦ elim (In-append m log (r ∷ []) im2) [
          | inl old ↦
              let gone : hides ((first_pass json empty_index all).released c.claim_id) m.offset
                  ≡ true =
                rw
                  (
                    same,
                    released-first_pass json id empty_index all named,
                    earliest-release log more fresh e behind,
                  )
                  (hidden m.offset (All_get (λ x. x.offset <ℤ r.offset) m log last old)) in
              false≢true
                (sym (hidden_not_listed now (first_pass json empty_index all) m.offset c gone) ∙ l)
          | inr (inl q) ↦ release-not-claim e c (rw q at cm)
          | inr (inr none_left) ↦ absurd none_left
        ]
      ]

  -- After the first release or transfer of an id, at an offset behind all others, no claim with
  -- that id is listed any more, at any time.
  pub release_ends :
      (now : Time) (log : List (Message Payload)) (c : Claim)
      → id ≢ []
      → All (λ x. names id (release_id json x) ≡ false) log
      → All (λ x. x.offset <ℤ r.offset) log
      → names id (release_id json r) ≡ true
      → In c (filter_active_claims json now (log ++ (r ∷ [])))
      → c.claim_id ≢ id
  release_ends now log c named fresh last e i =
      stays_released now log [] c named fresh last e tt tt (rw (append-nil (log ++ (r ∷ []))) i)
