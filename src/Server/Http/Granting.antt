-- ===== src/Server/Http/Granting.antt =====
-- What POST /claim answers (internal/server/server.go, over pkg/hearsay/client.go).
use hearsay.Base.{
  ℕ, suc, ◌<◌, ◌≡◌, refl, ◌∙◌, ◌⊎◌, inl, inr, Bool, true, false, List, [], ◌∷◌, ◌++◌, none, some,
  In, length, if◌then◌else◌, Bool-cases,
}
use hearsay.Base.Int.{ℤ, Time, two63}
use hearsay.Base.Text.{Text}
use hearsay.Claims.{Claim, Conflict, conflict_of}
use hearsay.Provider.{Message, Json, msg_claim}
use hearsay.Client.{ClaimRequest, ClaimResponse, ClaimResult, outgoing, claim_of, claim}
use hearsay.Client.Laws.{LogLaws, stored}
use hearsay.Client.Claiming.{Rival, IsRefused, IsGranted, claim_decides}
use hearsay.Mail.{validate_agent_id, validate_resource_uri, validate_intent}
use hearsay.Server.Audit.{Logger}
use hearsay.Server.Guarding.{passes}
use hearsay.Server.RateLimit.{Windows, Answer, unlimited, served, blocked, wrap, agent_of_header}
use hearsay.Server.Http.{Reply, Request, Bodies, Store, Setting, Handler}
use hearsay.Server.Http.Coordination.{handle_claim, answer_claim, refuse_claim, claim_entry}
use hearsay.Server.Http.Refusing.{log-store}
use hearsay.Server.Http.Serve.{
  Site, at_claim, is_guarded, handle, authorized, admitted, rate_limited, serve,
}

abbrev pub lets_in : Answer → Bool
lets_in unlimited = true
lets_in (served n) = true
lets_in (blocked n) = false

-- The fields of a request have the form that the handler asks for.
pub record IsValid (req : ClaimRequest) : Type 0 where
  pub agent : validate_agent_id req.agent_id ≡ none
  pub resource : validate_resource_uri req.resource_uri ≡ none
  pub intent : validate_intent req.intent ≡ none

-- The status of a refused claim.
abbrev pub refusal_status : Bool → ℕ
refusal_status locking = if locking then 423 else 409

module _ (Payload : Type 0) where
  refuse_claim-status :
      (locking : Bool) (resp : ClaimResponse) (c : Conflict) (cs : List Conflict)
      → In c cs
      → (refuse_claim {Payload = Payload} locking resp cs).status ≡ refusal_status locking
  refuse_claim-status locking resp c [] m = absurd m
  refuse_claim-status locking resp c (x ∷ cs) m = elim (Bool-cases locking) [
    | inl e ↦ rw e refl
    | inr e ↦ rw e refl
  ]

module _ {Payload S Body : Type 0} (json : Json Payload) (store : Store Payload S)
    (bodies : Bodies Payload Body) (set : Setting) (log_of : S → List (Message Payload))
    (IsSound : S → Type 0)
    (laws : LogLaws json set.path_match store.log set.namespace log_of IsSound) where
  abbrev pub RivalOf : Time → ClaimRequest → S → Claim → Type 0
  RivalOf = Rival json set.path_match set.decimal store.log set.namespace log_of IsSound laws

  -- The claim is the last message of the log.
  abbrev pub IsWritten : Time → ClaimRequest → S → S → Type 0
  IsWritten now req s s' =
      let c = claim_of set.decimal now req in
      (o : ℤ) × (log_of s'
        ≡ log_of s
          ++ (stored now set.namespace o (outgoing msg_claim c.agent_id (json.encode_claim c))
              ∷ []))

  -- What the reply and the state behind the provider are, where a rival stands and where none does.
  abbrev pub IsDecided : Time → ClaimRequest → S → Reply Payload × Logger S → Type 0
  IsDecided now req s out =
      ((a : Claim) × RivalOf now req s a
        × (out.0.status ≡ refusal_status set.locking)
        × (out.1.store ≡ s))
      ⊎ (((a : Claim) → ¬ RivalOf now req s a)
          × (out.0.status ≡ 200)
          × IsWritten now req s out.1.store)

  module _ (now : Time) where
    decided :
        (req : ClaimRequest) (s : S) (out out' : Reply Payload × Logger S)
        → out ≡ out'
        → IsDecided now req s out'
        → IsDecided now req s out
    decided req s out out' e h = rw e h

    let_in-handled :
        (new_id : Text) (answer : Answer) (ws : Windows) (agent : Text) (h : Handler Payload S)
        (l : Logger S)
        → lets_in answer ≡ true
        → let out = admitted json store bodies set now new_id answer ws agent h l in
          (out.0, out.1.logger) ≡ h l
    let_in-handled new_id unlimited ws agent h l calm = refl
    let_in-handled new_id (served n) ws agent h l calm = refl
    let_in-handled new_id (blocked n) ws agent h l calm = cc

    answered-IsDecided :
        (req : ClaimRequest) (l : Logger S) (out : ClaimResult × S)
        → (((a : Claim) × RivalOf now req l.store a
              × IsRefused json set.path_match set.decimal store.log set.namespace log_of IsSound
                  laws now req l.store a out)
            ⊎ (((a : Claim) → ¬ RivalOf now req l.store a)
                × IsGranted json set.path_match set.decimal store.log set.namespace log_of IsSound
                    laws now req l.store out))
        → IsDecided now req l.store
            (answer_claim json store bodies set now req (out.0, record l { store = out.1 }))
    answered-IsDecided req l out (inl (a, rival, (report, e, listed, same))) = inl (
      a,
      rival,
      rw e (refuse_claim-status Payload set.locking _ (conflict_of a) report.conflicts listed),
      rw e same,
    )
    answered-IsDecided req l out (inr (free, (o, e, grown, above, sound))) = inr (
      free,
      rw e refl,
      (o, rw (e, log-store set.marshal now (claim_entry req) (record l { store = out.1 })) grown),
    )

    -- Over any provider that keeps the laws, a valid request for a claim, with the token and not
    -- limited, is answered 423 or, without the locking mode, 409 where an active claim of another
    -- agent conflicts with it, and then changes nothing; else it is answered 200, and the claim is
    -- written behind all other messages.
    pub claim_answered :
        (new_id : Text) (r : Request Body) (req : ClaimRequest) (site : Site S)
        → lets_in (wrap set.limit now r.agent_header site.windows).0 ≡ true
        → passes set.token r.headers ≡ true
        → bodies.claim_request r.body ≡ some req
        → IsValid req
        → IsSound site.logger.store
        → suc (length (log_of site.logger.store)) < two63
        → let out = serve json store bodies set now new_id at_claim r site in
          IsDecided now req site.logger.store (out.0, out.1.logger)
    unfolding serve rate_limited authorized handle handle_claim is_guarded
    claim_answered new_id r req site calm token body fine sound room =
        let l = site.logger in
        let result =
          claim json store.log set.namespace set.decimal set.path_match now req l.store in
        let window = wrap set.limit now r.agent_header site.windows in
        let handled : authorized json store bodies set now new_id r
              (handle_claim json store bodies set now r.body) l
            ≡ answer_claim json store bodies set now req (result.0, record l { store = result.1 }) =
          rw (token, body, fine.agent, fine.resource, fine.intent) refl in
        decided req l.store _ _
          (let_in-handled new_id window.0 window.1 (agent_of_header r.agent_header)
              (authorized json store bodies set now new_id r
                (handle_claim json store bodies set now r.body))
              l calm
            ∙ handled)
          (answered-IsDecided req l result (
            claim_decides json set.path_match set.decimal store.log set.namespace log_of IsSound
              laws now req l.store sound room))
