-- ===== src/Client/Claiming.antt =====
-- What `Claim` decides, over any provider that keeps the laws (pkg/hearsay/client.go).
use mathlib.Core.Bool.{false≢true}
use hearsay.Base.{
  suc, ◌<◌, ◌≡◌, refl, sym, ap, ◌∙◌, ◌≢◌, ◌⊎◌, inl, inr, Bool, true, false, List, [], ◌∷◌, ◌++◌,
  none, some, All, In, filter, length, arith, In-of_In-filter, In-filter_of_In, Bool-cases,
}
use hearsay.Base.Int.{ℤ, Time, ◌<ℤ◌, two63}
use hearsay.Base.Text.{Text}
use hearsay.Claims.{
  Operation, Claim, ConflictReport, check_conflict, is_conflicting, resource_matches_pattern,
  conflict_of,
}
use hearsay.Claims.Conflicts.{Against, check_conflict_iff}
use hearsay.Provider.{Message, msg_claim, Json, LogProvider, Result, ok, err}
use hearsay.Active.{filter_active_claims}
use hearsay.Client.{
  ClaimRequest, ClaimResult, granted, conflicted, outgoing, generate_claim_id, claim_of,
  finish_claim, claim,
}
use hearsay.Client.Laws.{LogLaws, stored}

module _ (path_match : Text → Text → Bool) where
  -- What conflicts by its resource also matches as a pattern, so `ActiveClaims` does not leave it out.
  pattern_of_conflict :
      (resource : Text) (op : Operation) (a : Claim)
      → is_conflicting path_match resource op a ≡ true
      → resource_matches_pattern path_match resource a.resource_uri ≡ true
  unfolding is_conflicting resource_matches_pattern
  pattern_of_conflict resource op a h = ground arith

module _ {Payload S : Type 0} (json : Json Payload) (path_match : Text → Text → Bool)
    (decimal : ℤ → Text) (provider : LogProvider Payload S) (ns : Text)
    (log : S → List (Message Payload)) (IsSound : S → Type 0)
    (laws : LogLaws json path_match provider ns log IsSound) where
  abbrev candidates : Time → Text → S → List Claim
  candidates now pattern s =
      filter (λ (c : Claim). resource_matches_pattern path_match pattern c.resource_uri)
        (filter_active_claims json now (log s))

  -- An active claim of another agent that the request conflicts with.
  pub record Rival (now : Time) (req : ClaimRequest) (s : S) (a : Claim) : Type 0 where
    pub listed : In a (filter_active_claims json now (log s))
    pub other_agent : a.agent_id ≢ req.agent_id
    pub conflicting : is_conflicting path_match req.resource_uri req.operation a ≡ true

  abbrev report_for : Time → ClaimRequest → S → ConflictReport
  report_for now req s =
      check_conflict path_match (claim_of decimal now req) (candidates now req.resource_uri s)

  Against-of_Rival :
      (now : Time) (req : ClaimRequest) (s : S) (a : Claim)
      → Rival now req s a
      → In a (candidates now req.resource_uri s) × Against path_match (claim_of decimal now req) a
  unfolding claim_of
  Against-of_Rival now req s a r = (
    In-filter_of_In _ a (filter_active_claims json now (log s)) r.listed
        (pattern_of_conflict path_match req.resource_uri req.operation a r.conflicting),
    record { other_agent = r.other_agent; conflicting = r.conflicting },
  )

  Rival-of_Against :
      (now : Time) (req : ClaimRequest) (s : S) (a : Claim)
      → In a (candidates now req.resource_uri s)
      → Against path_match (claim_of decimal now req) a
      → Rival now req s a
  unfolding claim_of
  Rival-of_Against now req s a i g = record {
    listed = (In-of_In-filter _ a (filter_active_claims json now (log s)) i).0;
    other_agent = g.other_agent;
    conflicting = g.conflicting;
  }

  -- How a refused request ends: the report lists the rival, and the state is as it was.
  abbrev pub IsRefused : Time → ClaimRequest → S → Claim → ClaimResult × S → Type 0
  IsRefused now req s a out =
      (report : ConflictReport) × (out.0
        ≡ conflicted (record { claim_id = generate_claim_id decimal now; conflict = some report })
            report)
      × In (conflict_of a) report.conflicts
      × (out.1 ≡ s)

  refused_by_report :
      (now : Time) (req : ClaimRequest) (s : S)
      → IsSound s
      → (report_for now req s).has_conflict ≡ true
      → claim json provider ns decimal path_match now req s ≡ (
        conflicted
            (record {
              claim_id = generate_claim_id decimal now;
              conflict = some (report_for now req s);
            })
            (report_for now req s),
        s,
      )
  unfolding claim claim_of
  refused_by_report now req s sound h = rw (laws.active_claims_lem now req.resource_uri s sound, h)

  -- A request that has a rival is refused.
  pub refused :
      (now : Time) (req : ClaimRequest) (s : S) (a : Claim)
      → IsSound s
      → Rival now req s a
      → IsRefused now req s a (claim json provider ns decimal path_match now req s)
  refused now req s a sound r =
      let (i, g) = Against-of_Rival now req s a r in
      let (exact, complete, only) =
        check_conflict_iff path_match (claim_of decimal now req)
          (candidates now req.resource_uri s) in
      let e = refused_by_report now req s sound (exact.1 (a, i, g)) in
      (
        report_for now req s,
        ap (λ (out : ClaimResult × S). out.0) e,
        complete a i g,
        ap (λ (out : ClaimResult × S). out.1) e,
      )

  -- How a granted request ends: the claim is the last message of the log, above all others.
  abbrev pub IsGranted : Time → ClaimRequest → S → ClaimResult × S → Type 0
  IsGranted now req s out =
      let c = claim_of decimal now req in
      (o : ℤ) × (out.0 ≡ granted (record { claim_id = c.claim_id; conflict = none }))
      × (log out.1
          ≡ log s ++ (stored now ns o (outgoing msg_claim c.agent_id (json.encode_claim c)) ∷ []))
      × All (λ (x : Message Payload). x.offset <ℤ o) (log s)
      × IsSound out.1

  append_claim : Time → Claim → S → Result (Unit {0}) × S
  append_claim now c =
      provider.append now ns (outgoing msg_claim c.agent_id (json.encode_claim c) ∷ [])

  finish_ok :
      (c : Claim) (out : Result (Unit {0}) × S)
      → out.0 ≡ ok tt
      → finish_claim json provider ns c out
        ≡ (granted (record { claim_id = c.claim_id; conflict = none }), out.1)
  finish_ok c (ok u, s) h = refl
  finish_ok c (err e, s) h = cc

  claim_unopposed :
      (now : Time) (req : ClaimRequest) (s : S)
      → IsSound s
      → (report_for now req s).has_conflict ≡ false
      → claim json provider ns decimal path_match now req s
        ≡ finish_claim json provider ns
            (claim_of decimal now req)
            (append_claim now (claim_of decimal now req) s)
  unfolding claim append_claim
  claim_unopposed now req s sound h = rw (laws.active_claims_lem now req.resource_uri s sound, h)

  IsGranted-by_report :
      (now : Time) (req : ClaimRequest) (s : S)
      → IsSound s
      → suc (length (log s)) < two63
      → (report_for now req s).has_conflict ≡ false
      → IsGranted now req s (claim json provider ns decimal path_match now req s)
  unfolding append_claim
  IsGranted-by_report now req s sound room h =
      let c = claim_of decimal now req in
      let (o, done, grown, above, sound') =
        laws.append_lem now (outgoing msg_claim c.agent_id (json.encode_claim c)) s sound room in
      rw (claim_unopposed now req s sound h ∙ finish_ok c (append_claim now c s) done)
        (o, refl, grown, above, sound')

  -- `Claim` refuses a request exactly when it has a rival, and then changes nothing; else it grants
  -- the request and writes the claim behind all other messages.
  pub claim_decides :
      (now : Time) (req : ClaimRequest) (s : S)
      → IsSound s
      → suc (length (log s)) < two63
      → ((a : Claim) × Rival now req s a
          × IsRefused now req s a (claim json provider ns decimal path_match now req s))
        ⊎ (((a : Claim) → ¬ Rival now req s a)
            × IsGranted now req s (claim json provider ns decimal path_match now req s))
  claim_decides now req s sound room =
      let (exact, complete, only) =
        check_conflict_iff path_match (claim_of decimal now req)
          (candidates now req.resource_uri s) in
      elim (Bool-cases (report_for now req s).has_conflict) [
        | inl e ↦
            let (a, i, g) = exact.0 e in
            let r = Rival-of_Against now req s a i g in inl (a, r, refused now req s a sound r)
        | inr e ↦ inr (
          λ a r.
              let (i, g) = Against-of_Rival now req s a r in false≢true (sym e ∙ exact.1 (a, i, g)),
          IsGranted-by_report now req s sound room e,
        )
      ]
