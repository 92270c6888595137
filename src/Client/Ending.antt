-- ===== src/Client/Ending.antt =====
-- Releases and heartbeats of the client, over any provider that keeps the laws
-- (pkg/hearsay/client.go).
use hearsay.Base.{
  suc, ◌<◌, ◌≡◌, refl, ◌≢◌, inl, Bool, true, false, List, [], ◌∷◌, ◌++◌, some, All, In, length,
  In-append_right, In-append_left, All-append, All_get, ap,
}
use hearsay.Base.Int.{ℤ, pos, Time, ◌+ℤ◌, ◌≤ℤ◌, ◌<ℤ◌, two63, seconds}
use hearsay.Base.Text.{Text, text_eq_refl}
use hearsay.Claims.{Outcome, Claim}
use hearsay.Provider.{Message, msg_release, msg_heartbeat, Json, LogProvider, ok}
use hearsay.Active.{
  filter_active_claims, is_release, is_heartbeat, release_id, heartbeat_id, claim_in, names,
}
use hearsay.Active.Listing.{IsHeld}
use hearsay.Active.Release.{stays_released}
use hearsay.Active.Endings.{heartbeat_extends}
use hearsay.Client.{outgoing, release, heartbeat}
use hearsay.Client.Laws.{LogLaws, stored}

module _ {Payload S : Type 0} (json : Json Payload) (path_match : Text → Text → Bool)
    (provider : LogProvider Payload S) (ns : Text) (log : S → List (Message Payload))
    (IsSound : S → Type 0) (laws : LogLaws json path_match provider ns log IsSound) where
  abbrev release_message : Time → Text → Outcome → Message Payload
  release_message now id outcome = outgoing msg_release [] (json.encode_release id outcome now)

  above_last :
      (r : Message Payload) (xs more : List (Message Payload))
      → All (λ x. All (λ (y : Message Payload). y.offset <ℤ x.offset) (xs ++ (r ∷ []))) more
      → All (λ x. r.offset <ℤ x.offset) more
  above_last r xs [] h = tt
  above_last r xs (x ∷ more) h = (
    All_get (λ (y : Message Payload). y.offset <ℤ x.offset) r (xs ++ (r ∷ [])) h.0
        (In-append_right r xs (r ∷ []) (inl refl)),
    above_last r xs more h.1,
  )

  release_names :
      (now : Time) (id : Text) (outcome : Outcome) (o : ℤ)
      → json.decode_claim_id (json.encode_release id outcome now) ≡ some id
      → names id (release_id json (stored now ns o (release_message now id outcome))) ≡ true
  unfolding release_id is_release
  release_names now id outcome o e = rw e (text_eq_refl id)

  -- `Release` of an id that is not empty, that its payload decodes to, and that no message of the
  -- log has released before, answers without an error, and from then on no claim with that id is
  -- listed, at any time: neither right after it, nor after anything that is written later at
  -- offsets above those of the log, heartbeats and further releases included, as long as it has no
  -- new claim with that id.
  pub release_removes :
      (now : Time) (id : Text) (outcome : Outcome) (s s2 : S) (more : List (Message Payload))
      → IsSound s
      → suc (length (log s)) < two63
      → id ≢ []
      → json.decode_claim_id (json.encode_release id outcome now) ≡ some id
      → All (λ x. names id (release_id json x) ≡ false) (log s)
      → let out = release json provider ns now id outcome s in
        log s2 ≡ log out.1 ++ more
        → All (λ x. All (λ (y : Message Payload). y.offset <ℤ x.offset) (log out.1)) more
        → All (λ x. (d : Claim) → claim_in json x ≡ some d → d.claim_id ≢ id) more
        → (out.0 ≡ ok tt)
          × ((t : Time) (c : Claim) → In c (filter_active_claims json t (log s2)) → c.claim_id ≢ id)
  unfolding release
  release_removes now id outcome s s2 more sound room named round fresh whole behind unclaimed =
      let (o, done, grown, above, sound') =
        laws.append_lem now (release_message now id outcome) s sound room in
      let r = stored now ns o (release_message now id outcome) in
      (
        done,
        λ t c i.
            stays_released json id r t (log s) more c named fresh above
              (release_names now id outcome o round)
              (above_last r (log s) more (
                rw
                  (ap
                    (λ (l : List (Message Payload)).
                      All (λ x. All (λ (y : Message Payload). y.offset <ℤ x.offset) l) more)
                    grown)
                  at behind))
              unclaimed (rw (whole, grown) at i),
      )

  abbrev heartbeat_message : Time → Text → Message Payload
  heartbeat_message now id = outgoing msg_heartbeat [] (json.encode_heartbeat id now)

  heartbeat_names :
      (now : Time) (id : Text) (o : ℤ)
      → json.decode_claim_id (json.encode_heartbeat id now) ≡ some id
      → names id (heartbeat_id json (stored now ns o (heartbeat_message now id))) ≡ true
  unfolding heartbeat_id is_heartbeat
  heartbeat_names now id o e = rw e (text_eq_refl id)

  heartbeat_no_release :
      (now : Time) (id j : Text) (o : ℤ)
      → names j (release_id json (stored now ns o (heartbeat_message now id))) ≡ false
  unfolding release_id is_release
  heartbeat_no_release now id j o = refl

  -- A heartbeat for a held claim succeeds and has it listed for one TTL from then on. Nothing asks
  -- whether the claim's time had passed, or whether another agent was granted the resource since.
  pub heartbeat_revives :
      (now t : Time) (m : Message Payload) (c : Claim) (s : S)
      → IsSound s
      → suc (length (log s)) < two63
      → IsHeld json (log s) m c
      → json.decode_claim_id (json.encode_heartbeat c.claim_id now) ≡ some c.claim_id
      → pos 0 <ℤ now
      → t ≤ℤ now +ℤ seconds c.ttl_seconds
      → let out = heartbeat json provider ns now c.claim_id s in
        (out.0 ≡ ok tt) × In c (filter_active_claims json t (log out.1))
  unfolding heartbeat
  heartbeat_revives now t m c s sound room held round young le =
      let (o, done, grown, above, sound') =
        laws.append_lem now (heartbeat_message now c.claim_id) s sound room in
      let h = stored now ns o (heartbeat_message now c.claim_id) in
      (
        done,
        rw grown (
            heartbeat_extends json t (log s ++ (h ∷ [])) m h c
              (record {
                in_log = In-append_left m (log s) (h ∷ []) held.in_log;
                is_claim = held.is_claim;
                named = held.named;
                unreleased =
                    All-append _ (log s) (h ∷ []) held.unreleased
                      (λ e. cc (heartbeat_no_release now c.claim_id c.claim_id o), tt);
              })
              (In-append_right h (log s) (h ∷ []) (inl refl))
              (heartbeat_names now c.claim_id o round) young le),
      )
