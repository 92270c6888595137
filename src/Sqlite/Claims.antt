-- ===== src/Sqlite/Claims.antt =====
-- Which claims the SQLite provider lists (internal/sqlite/sqlite.go).
use hearsay.Base.{
  ◌≡◌, refl, ap, ◌∙◌, Bool, true, false, not, ◌||◌, List, [], ◌∷◌, none, filter, Bool-cases, inl,
  inr, arith, ℕ, suc,
}
use hearsay.Base.Int.{pos, Time}
use hearsay.Base.Text.{Text, text_eq}
use hearsay.Claims.{Claim, resource_matches_pattern}
use hearsay.Provider.{Message, MessageType, Json, ok, type_eq}
use hearsay.Active.{
  Index, empty_index, index_message, first_pass, second_pass, filter_active_claims, release_id,
  heartbeat_id, claim_in, is_release, is_heartbeat, is_claim,
}
use hearsay.Memory.{Provider}
use hearsay.Memory.Log.{is_skipped, contains_type, claims_matching, all_messages}
use hearsay.Memory.Numbering.{IsNumbered}
use hearsay.Memory.Queries.{query-filter}
use hearsay.Sqlite.{Tables}
use hearsay.Sqlite.Log.{active_claims, claim_types}
use hearsay.Sqlite.Refining.{Holds}
use hearsay.Sqlite.Reading.{query-Holds}

-- The types that `ActiveClaims` asks for.
contains_type-claim_types :
    (ty : MessageType) → contains_type claim_types ty ≡ (is_claim ty || is_release ty)
unfolding contains_type type_eq is_claim is_release
contains_type-claim_types ty = grind arith

heartbeat_not_of_claims :
    (ty : MessageType) → is_heartbeat ty ≡ true → (is_claim ty || is_release ty) ≡ false
unfolding is_claim is_release is_heartbeat
heartbeat_not_of_claims ty h = grind arith

module _ {Payload : Type 0} where
  abbrev pub of_claims : Message Payload → Bool
  of_claims m = contains_type claim_types m.type

  abbrev pub no_heartbeat : Message Payload → Bool
  no_heartbeat m = not (is_heartbeat m.type)

module _ {Payload : Type 0} (json : Json Payload) where
  no_claim : (m : Message Payload) → of_claims m ≡ false → claim_in json m ≡ none
  unfolding claim_in
  no_claim m h =
      let e : is_claim m.type ≡ false = ground (arith, contains_type-claim_types m.type) in
      rw e refl

  -- A message of another type, heartbeats apart, changes neither index.
  indexes_nothing :
      (idx : Index) (m : Message Payload)
      → of_claims m ≡ false
      → is_heartbeat m.type ≡ false
      → index_message json idx m ≡ idx
  unfolding index_message release_id heartbeat_id
  indexes_nothing idx m h b =
      let e : is_release m.type ≡ false = ground (arith, contains_type-claim_types m.type) in
      rw (e, b) refl

  first_pass-of_claims :
      (idx : Index) (msgs : List (Message Payload))
      → first_pass json idx (filter of_claims msgs) ≡ first_pass json idx (filter no_heartbeat msgs)
  unfolding first_pass
  first_pass-of_claims idx [] = refl
  first_pass-of_claims idx (m ∷ msgs) = elim (Bool-cases (is_heartbeat m.type)) [
    | inl b ↦
        let e : of_claims m ≡ false =
          contains_type-claim_types m.type ∙ heartbeat_not_of_claims m.type b in
        rw (b, e) (first_pass-of_claims idx msgs)
    | inr b ↦ elim (Bool-cases (of_claims m)) [
      | inl e ↦ rw (b, e) (first_pass-of_claims (index_message json idx m) msgs)
      | inr e ↦ rw (b, e, indexes_nothing idx m e b) (first_pass-of_claims idx msgs)
    ]
  ]

  second_pass-of_claims :
      (now : Time) (idx : Index) (msgs : List (Message Payload))
      → second_pass json now idx (filter of_claims msgs)
        ≡ second_pass json now idx (filter no_heartbeat msgs)
  unfolding second_pass
  second_pass-of_claims now idx [] = refl
  second_pass-of_claims now idx (m ∷ msgs) = elim (Bool-cases (is_heartbeat m.type)) [
    | inl b ↦
        let e : of_claims m ≡ false =
          contains_type-claim_types m.type ∙ heartbeat_not_of_claims m.type b in
        rw (b, e) (second_pass-of_claims now idx msgs)
    | inr b ↦ elim (Bool-cases (of_claims m)) [
      | inl e ↦ rw (b, e, second_pass-of_claims now idx msgs) refl
      | inr e ↦ rw (b, e, no_claim m e) (second_pass-of_claims now idx msgs)
    ]
  ]

  filter_active_claims-of_claims :
      (now : Time) (msgs : List (Message Payload))
      → filter_active_claims json now (filter of_claims msgs)
        ≡ filter_active_claims json now (filter no_heartbeat msgs)
  unfolding filter_active_claims
  filter_active_claims-of_claims now msgs =
      ap (λ (idx : Index). second_pass json now idx (filter of_claims msgs))
        (first_pass-of_claims empty_index msgs)
      ∙ second_pass-of_claims now (first_pass json empty_index (filter no_heartbeat msgs)) msgs

  asked_for :
      (m : Message Payload) (o : ℕ)
      → m.offset ≡ pos (suc o)
      → not (is_skipped (record all_messages { types = claim_types }) m) ≡ of_claims m
  unfolding is_skipped text_eq
  asked_for m o e = rw e (ground arith)

  filter_asked :
      (k : ℕ) (msgs : List (Message Payload))
      → IsNumbered k msgs
      → filter (λ m. not (is_skipped (record all_messages { types = claim_types }) m)) msgs
        ≡ filter of_claims msgs
  filter_asked k [] h = refl
  filter_asked k (m ∷ msgs) h = rw (asked_for m k h.0, filter_asked (suc k) msgs h.1) refl

  -- Where the tables hold the log of the in-memory provider, and the engine does not refuse the
  -- statement, the claims that are listed are those that would be active had no heartbeat ever been
  -- written.
  pub active_claims-Holds :
      (path_match : Text → Text → Bool) (refuses : ℕ → Bool) (now : Time) (ns pattern : Text)
      (t : Tables Payload) (p : Provider Payload)
      → refuses 0 ≡ false
      → Holds ns t p
      → active_claims refuses json path_match now ns pattern t
        ≡ ok (
            filter
              (λ (c : Claim). resource_matches_pattern path_match pattern c.resource_uri)
              (filter_active_claims json now (filter no_heartbeat (p.messages ns))))
  unfolding active_claims
  active_claims-Holds path_match refuses now ns pattern t p works h =
      ap (claims_matching json path_match now pattern) (
        query-Holds refuses ns (record all_messages { types = claim_types }) t p works h
        ∙ query-filter ns (record all_messages { types = claim_types }) p
        ∙ ap ok (filter_asked 0 (p.messages ns) h.numbered.numbered))
      ∙ ap
          (λ (cs : List Claim).
            ok (
              filter (λ (c : Claim). resource_matches_pattern path_match pattern c.resource_uri)
                cs))
          (filter_active_claims-of_claims now (p.messages ns))
