-- ===== src/Tests/Active.antt =====
-- Active claims of concrete logs (pkg/hearsay/activeclaims.go).
use hearsay.Base.{◌≡◌, ◌≢◌, ◌++◌, refl, false, List, [], ◌∷◌, In, arith, inl, inr}
use hearsay.Base.Int.{pos, ◌+ℤ◌, seconds, wrap64}
use hearsay.Base.Text.{text_eq}
use hearsay.Provider.{Message, msg_claim, msg_release}
use hearsay.Claims.{Claim}
use hearsay.Active.{
  filter_active_claims, is_claim_active, first_pass, second_pass, index_message, is_listed,
  release_id, heartbeat_id, claim_in, is_release, is_heartbeat, is_claim, earlier, later,
  deadline_of, released_after,
}
use hearsay.Active.Equivalence.{filter_active_claims-active_in, active_in}
use hearsay.Active.Listing.{IsHeld}
use hearsay.Active.Endings.{early_release_masks, heartbeat_extends}
use hearsay.Active.Release.{release_ends}
use hearsay.Tests.Fixtures.{
  Body, claim_body, id_body, message_at, bob_claim, sample_json, write_claim, claim_message,
  release_message, heartbeat_message,
}

abbrev plain_log : List (Message Body)
plain_log = claim_message ∷ heartbeat_message ∷ []

alice_is_active : filter_active_claims sample_json (pos 2000) plain_log ≡ write_claim ∷ []
unfolding filter_active_claims first_pass second_pass index_message is_listed release_id
    heartbeat_id claim_in is_release is_heartbeat is_claim earlier later deadline_of text_eq seconds
    ◌+ℤ◌ wrap64
alice_is_active = refl

filter_active_claims-active_in_example :
    filter_active_claims sample_json (pos 2000) plain_log
    ≡ active_in sample_json (pos 2000) plain_log plain_log
unfolding release_id heartbeat_id claim_in is_release is_heartbeat is_claim text_eq
filter_active_claims-active_in_example =
    filter_active_claims-active_in sample_json (pos 2000) plain_log (
      (
        λ e. cc,
        omega arith,
        (
          record { release_later = λ e. cc; heartbeat_stale = λ e. cc },
          (record { release_later = λ e. cc; heartbeat_stale = λ e le. omega arith }, tt),
        ),
      ),
      (tt, tt),
    )

plain-IsHeld : IsHeld sample_json plain_log claim_message write_claim
unfolding release_id claim_in is_release is_claim text_eq
plain-IsHeld = record {
  in_log = inl refl;
  is_claim = refl;
  named = λ e. cc;
  unreleased = (λ e. cc, (λ e. cc, tt));
}

heartbeat_extends_example :
    In write_claim (filter_active_claims sample_json (pos 60000004000) plain_log)
unfolding heartbeat_id is_heartbeat text_eq seconds wrap64 ◌+ℤ◌
heartbeat_extends_example =
    heartbeat_extends sample_json (pos 60000004000) plain_log claim_message heartbeat_message
      write_claim plain-IsHeld (inr (inl refl)) refl (omega arith) (omega arith)

abbrev masked_log : List (Message Body)
masked_log = release_message 1 ∷ claim_message ∷ release_message 3 ∷ []

early_release_masks_example :
    In write_claim (filter_active_claims sample_json (pos 2000) masked_log)
    × (is_claim_active sample_json (pos 2000) masked_log (pos 2) write_claim (pos 2000) ≡ false)
unfolding release_id claim_in is_release is_claim text_eq deadline_of seconds wrap64 ◌+ℤ◌
early_release_masks_example =
    early_release_masks sample_json (pos 2000) masked_log (release_message 1) (release_message 3)
      claim_message write_claim (λ e. cc) (inr (inl refl)) refl (inl refl) refl (omega arith)
      (inr (inr (inl refl))) refl (omega arith) (omega arith)

abbrev bob_message : Message Body
bob_message = message_at 3 msg_claim (claim_body bob_claim) (pos 1000)

abbrev two_claims : List (Message Body)
two_claims = claim_message ∷ bob_message ∷ []

bob_listed :
    In bob_claim
      (filter_active_claims sample_json (pos 2000) (two_claims ++ (release_message 4 ∷ [])))
unfolding filter_active_claims first_pass second_pass index_message is_listed release_id
    heartbeat_id claim_in is_release is_heartbeat is_claim earlier later deadline_of text_eq seconds
    ◌+ℤ◌ wrap64
bob_listed = inl refl

c1_named : write_claim.claim_id ≢ []
c1_named h = ground arith

release_ends_example : bob_claim.claim_id ≢ write_claim.claim_id
unfolding release_id is_release text_eq
release_ends_example =
    release_ends sample_json write_claim.claim_id (release_message 4) (pos 2000) two_claims
      bob_claim c1_named (refl, (refl, tt)) (omega arith, (omega arith, tt)) refl bob_listed

-- A claim with an empty id, and a release with an empty id after it.
abbrev nameless : Claim
nameless = record write_claim { claim_id = [] }

abbrev nameless_message : Message Body
nameless_message = message_at 1 msg_claim (claim_body nameless) (pos 1000)

abbrev nameless_log : List (Message Body)
nameless_log = nameless_message ∷ message_at 2 msg_release (id_body []) (pos 1500) ∷ []

-- The two functions disagree on it.
nameless_differs :
    (filter_active_claims sample_json (pos 2000) nameless_log ≡ nameless ∷ [])
    × (is_claim_active sample_json (pos 2000) nameless_log (pos 1) nameless (pos 2000) ≡ false)
unfolding filter_active_claims first_pass second_pass index_message is_listed release_id
    heartbeat_id claim_in is_release is_heartbeat is_claim earlier later deadline_of text_eq seconds
    ◌+ℤ◌ wrap64 is_claim_active released_after
nameless_differs = (refl, refl)
