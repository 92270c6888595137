-- ===== src/Client/Holding.antt =====
-- What a granted claim is good for, over any provider that keeps the laws (pkg/hearsay/client.go).
use hearsay.Base.{
  suc, ◌<◌, ◌≡◌, refl, sym, ap, ◌∙◌, ◌≢◌, inl, inr, Bool, true, false, List, [], ◌∷◌, ◌++◌, some,
  All, length, arith, In-append_right, In-append_left, All-append,
}
use hearsay.Base.Int.{ℤ, Time, ◌+ℤ◌, ◌≤ℤ◌, ◌<ℤ◌, two63, seconds}
use hearsay.Base.Text.{Text}
use hearsay.Claims.{Claim, ConflictReport, is_conflicting}
use hearsay.Provider.{Message, msg_claim, Json, LogProvider}
use hearsay.Active.{is_release, is_claim, release_id, claim_in, names, deadline_of}
use hearsay.Active.Listing.{IsHeld, listed_of_held}
use hearsay.Client.{
  ClaimRequest, ClaimResponse, granted, conflicted, outgoing, generate_claim_id, claim_of, claim,
}
use hearsay.Client.Laws.{LogLaws, stored}
use hearsay.Client.Claiming.{IsRefused, IsGranted, claim_decides, refused}

claim_id-ne-nil :
    (decimal : ℤ → Text) (now : Time) (req : ClaimRequest)
    → (claim_of decimal now req).claim_id ≢ []
unfolding claim_of generate_claim_id
claim_id-ne-nil decimal now req e = cc

granted-ne-conflicted : (x y : ClaimResponse) (r : ConflictReport) → granted x ≢ conflicted y r
granted-ne-conflicted x y r e = cc

module _ {Payload S : Type 0} (json : Json Payload) (path_match : Text → Text → Bool)
    (decimal : ℤ → Text) (provider : LogProvider Payload S) (ns : Text)
    (log : S → List (Message Payload)) (IsSound : S → Type 0)
    (laws : LogLaws json path_match provider ns log IsSound) where
  IsGranted-of_granted :
      (now : Time) (req : ClaimRequest) (s : S) (resp : ClaimResponse)
      → IsSound s
      → suc (length (log s)) < two63
      → (claim json provider ns decimal path_match now req s).0 ≡ granted resp
      → IsGranted json path_match decimal provider ns log IsSound laws now req s
          (claim json provider ns decimal path_match now req s)
  IsGranted-of_granted now req s resp sound room g =
      elim (claim_decides json path_match decimal provider ns log IsSound laws now req s sound
        room) [ inl r ↦ absurd (granted-ne-conflicted _ _ _ (sym g ∙ r.2.1)) | inr r ↦ r.1 ]

  not_releases :
      (id : Text) (k : ℤ) (msgs : List (Message Payload))
      → All (λ x. names id (release_id json x) ≡ false) msgs
      → All (λ x. names id (release_id json x) ≡ true → x.offset ≤ℤ k) msgs
  not_releases id k [] h = tt
  not_releases id k (x ∷ msgs) h = (λ e. cc (h.0), not_releases id k msgs h.1)

  below-All :
      (id : Text) (k : ℤ) (msgs : List (Message Payload))
      → All (λ (x : Message Payload). x.offset <ℤ k) msgs
      → All (λ x. names id (release_id json x) ≡ true → x.offset ≤ℤ k) msgs
  below-All id k [] h = tt
  below-All id k (x ∷ msgs) h = (λ e. omega (arith, h.0), below-All id k msgs h.1)

  stored_claim :
      (now : Time) (o : ℤ) (c : Claim)
      → json.decode_claim (json.encode_claim c) ≡ some c
      → claim_in json (stored now ns o (outgoing msg_claim c.agent_id (json.encode_claim c)))
        ≡ some c
  unfolding claim_in is_claim
  stored_claim now o c e = e

  stored_claim_no_release :
      (now : Time) (o : ℤ) (c : Claim) (id : Text)
      → names id
          (release_id json (stored now ns o (outgoing msg_claim c.agent_id (json.encode_claim c))))
        ≡ false
  unfolding release_id is_release
  stored_claim_no_release now o c id = refl

  -- A claim that was granted is held while no release or transfer of it is written.
  pub IsHeld-of_granted :
      (now : Time) (req : ClaimRequest) (s s2 : S) (resp : ClaimResponse)
      (more : List (Message Payload))
      → let c = claim_of decimal now req in
        let out = claim json provider ns decimal path_match now req s in
        IsSound s
        → suc (length (log s)) < two63
        → json.decode_claim (json.encode_claim c) ≡ some c
        → out.0 ≡ granted resp
        → log s2 ≡ log out.1 ++ more
        → All (λ x. names c.claim_id (release_id json x) ≡ false) more
        → (m : Message Payload) × IsHeld json (log s2) m c
  IsHeld-of_granted now req s s2 resp more sound room round g later kept =
      let c = claim_of decimal now req in
      let (o, done, grown, above, sound') = IsGranted-of_granted now req s resp sound room g in
      let m = stored now ns o (outgoing msg_claim c.agent_id (json.encode_claim c)) in
      let whole : log s2 ≡ (log s ++ (m ∷ [])) ++ more =
        later ∙ ap (λ (l : List (Message Payload)). l ++ more) grown in
      let own : All (λ x. names c.claim_id (release_id json x) ≡ true → x.offset ≤ℤ o) (m ∷ []) =
        (λ e. omega arith, tt) in
      (
        m,
        record {
          in_log = rw whole (
              In-append_left m (log s ++ (m ∷ [])) more
                (In-append_right m (log s) (m ∷ []) (inl refl)));
          is_claim = stored_claim now o c round;
          named = claim_id-ne-nil decimal now req;
          unreleased = rw whole (
              All-append _ (log s ++ (m ∷ [])) more
                (All-append _ (log s) (m ∷ []) (below-All c.claim_id o (log s) above) own)
                (not_releases c.claim_id o more kept));
        },
      )

  deadline_of_claim :
      (now : Time) (req : ClaimRequest)
      → deadline_of (claim_of decimal now req)
        ≡ now +ℤ seconds (claim_of decimal now req).ttl_seconds
  unfolding deadline_of claim_of
  deadline_of_claim now req = refl

  -- Once a claim is granted, and while no release or transfer of it is written, each request of
  -- another agent that conflicts with it is refused, with the claim in its report, until the
  -- claim's TTL has passed: whatever else was written to the log in between.
  pub granted_blocks_rivals :
      (now t : Time) (req rival : ClaimRequest) (s s2 : S) (resp : ClaimResponse)
      (more : List (Message Payload))
      → let c = claim_of decimal now req in
        let out = claim json provider ns decimal path_match now req s in
        IsSound s
        → suc (length (log s)) < two63
        → json.decode_claim (json.encode_claim c) ≡ some c
        → out.0 ≡ granted resp
        → log s2 ≡ log out.1 ++ more
        → All (λ x. names c.claim_id (release_id json x) ≡ false) more
        → IsSound s2
        → t ≤ℤ now +ℤ seconds c.ttl_seconds
        → c.agent_id ≢ rival.agent_id
        → is_conflicting path_match rival.resource_uri rival.operation c ≡ true
        → IsRefused json path_match decimal provider ns log IsSound laws t rival s2 c
            (claim json provider ns decimal path_match t rival s2)
  granted_blocks_rivals now t req rival s s2 resp more sound room round g later kept sound2 alive
        other conflict =
      let c = claim_of decimal now req in
      let (m, held) = IsHeld-of_granted now req s s2 resp more sound room round g later kept in
      refused json path_match decimal provider ns log IsSound laws t rival s2 c sound2 (record {
        listed = listed_of_held json t (log s2) m c held (rw (deadline_of_claim now req) alive);
        other_agent = other;
        conflicting = conflict;
      })
