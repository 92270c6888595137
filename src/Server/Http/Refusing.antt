-- ===== src/Server/Http/Refusing.antt =====
-- What a request that is answered with an error leaves behind (internal/server/server.go,
-- internal/server/mailbox_handlers.go).
use hearsay.Base.{
  ℕ, ◌<◌, ◌≡◌, refl, ◌⊎◌, inl, inr, List, [], ◌∷◌, Option, none, some, length, ltb, arith,
  Bool-cases,
}
use hearsay.Base.Int.{Time, eq_ℤ}
use hearsay.Base.Text.{Text}
use hearsay.Claims.{Claim, check_conflict}
use hearsay.Provider.{msg_claim, Message, Namespace, MailboxMessage, Json, Error, Result, ok, err}
use hearsay.Client.{
  ClaimRequest, ClaimResult, granted, conflicted, failed, claim_of, finish_claim, decide_claim,
  claim, outgoing,
}
use hearsay.Mail.{Invalid, validate_agent_id, validate_resource_uri, validate_intent}
use hearsay.Server.Audit.{Entry, Logger, log, audit_off, should_log, capacity}
use hearsay.Server.Http.{
  Reply, Bodies, Store, Setting, Handler, decoded, valid, answered, answered_with, Content,
}
use hearsay.Server.Http.Coordination

module _ {S : Type 0} where
  -- A call that fails leaves the state.
  abbrev pub FailsCleanly : (S → Result (Unit {0}) × S) → Type 0
  FailsCleanly f = (s : S) (e : Error) → (f s).0 ≡ err e → (f s).1 ≡ s

-- A provider whose failing calls change nothing.
pub record IsAtomic {Payload S : Type 0} (store : Store Payload S) : Type 0 where
  pub append :
      (now : Time) (ns : Text) (msgs : List (Message Payload))
      → FailsCleanly (store.log.append now ns msgs)
  pub create_namespace : (ns : Namespace) → FailsCleanly (store.create_namespace ns)
  pub delete_namespace : (ns : Text) → FailsCleanly (store.delete_namespace ns)
  pub release_expired : (ns : Text) (before : Time) → FailsCleanly (store.release_expired ns before)
  pub send_message :
      (now : Time) (ns : Text) (msg : MailboxMessage) → FailsCleanly (store.send_message now ns msg)
  pub mark_read : (ns id : Text) → FailsCleanly (store.mark_read ns id)
  pub archive_message : (ns id : Text) → FailsCleanly (store.archive_message ns id)

module _ {S : Type 0} where
  pub log-store :
      (marshal : List (Text × Text) → Text) (now : Time) (e : Entry) (l : Logger S)
      → (log marshal now e l).store ≡ l.store
  unfolding log
  log-store marshal now e l = elim (Bool-cases (eq_ℤ l.level audit_off)) [
    | inl off ↦ rw off refl
    | inr on ↦ elim (Bool-cases (should_log l.level e.event_type)) [
      | inr skip ↦ rw (on, skip) refl
      | inl keep ↦ elim (Bool-cases (ltb (length l.queue) capacity)) [
        | inl room ↦ rw (on, keep, room) refl
        | inr full ↦ rw (on, keep, full) refl
      ]
    ]
  ]

module _ {Payload S : Type 0} where
  -- The reply is no error, or the state behind the provider is as it was.
  abbrev pub Kept : Reply Payload × Logger S → Logger S → Type 0
  Kept out l = (out.0.status < 400) ⊎ (out.1.store ≡ l.store)

  abbrev pub IsCareful : Handler Payload S → Type 0
  IsCareful h = (l : Logger S) → Kept (h l) l

  pub decoded-IsCareful :
      {A : Type 0} (o : Option A) (f : A → Handler Payload S)
      → ((a : A) → IsCareful (f a))
      → IsCareful (decoded o f)
  decoded-IsCareful none f h l = inr refl
  decoded-IsCareful (some a) f h l = h a l

  pub valid-IsCareful :
      (o : Option Invalid) (h : Handler Payload S) → IsCareful h → IsCareful (valid o h)
  valid-IsCareful (some e) h c l = inr refl
  valid-IsCareful none h c l = c l

  pub answered-Kept :
      (success : Reply Payload) (failure : ℕ) (out : Result (Unit {0}) × S) (l : Logger S)
      → success.status < 400
      → ((e : Error) → out.0 ≡ err e → out.1 ≡ l.store)
      → Kept (answered success failure (out.0, record l { store = out.1 })) l
  answered-Kept success failure (ok u, s) l good clean = inl good
  answered-Kept success failure (err e, s) l good clean = inr (clean e refl)

  pub answered_with-Kept :
      {A : Type 0} (f : A → Content Payload) (r : Result A) (l : Logger S)
      → Kept (answered_with f r l) l
  answered_with-Kept f (ok a) l = inr refl
  answered_with-Kept f (err e) l = inr refl

module _ {Payload S Body : Type 0} (json : Json Payload) (store : Store Payload S)
    (bodies : Bodies Payload Body) (set : Setting) (now : Time) (atomic : IsAtomic store) where
  -- A claim that is not granted leaves the state.
  abbrev LeftUnlessGranted : ClaimResult × S → S → Type 0
  LeftUnlessGranted (granted r, s') s = Unit {0}
  LeftUnlessGranted (conflicted r report, s') s = s' ≡ s
  LeftUnlessGranted (failed e, s') s = s' ≡ s

  finish_claim-LeftUnlessGranted :
      (c : Claim) (out : Result (Unit {0}) × S) (s : S)
      → ((e : Error) → out.0 ≡ err e → out.1 ≡ s)
      → LeftUnlessGranted (finish_claim json store.log set.namespace c out) s
  finish_claim-LeftUnlessGranted c (ok u, s') s clean = tt
  finish_claim-LeftUnlessGranted c (err e, s') s clean = clean e refl

  decide_claim-LeftUnlessGranted :
      (c : Claim) (active : Result (List Claim)) (s : S)
      → LeftUnlessGranted
          (decide_claim json store.log set.namespace set.path_match now c active s)
          s
  decide_claim-LeftUnlessGranted c (err e) s = refl
  decide_claim-LeftUnlessGranted c (ok active) s =
      elim (Bool-cases (check_conflict set.path_match c active).has_conflict) [
        | inl e ↦ rw e refl
        | inr e ↦ rw e (
            finish_claim-LeftUnlessGranted c
              (store.log.append now set.namespace
                (outgoing msg_claim c.agent_id (json.encode_claim c) ∷ []) s)
              s
              (atomic.append now set.namespace
                (outgoing msg_claim c.agent_id (json.encode_claim c) ∷ []) s))
      ]

  answer_claim-Kept :
      (req : ClaimRequest) (out : ClaimResult × S) (l : Logger S)
      → LeftUnlessGranted out l.store
      → Kept
          (Coordination.answer_claim json store bodies set now req
            (out.0, record l { store = out.1 }))
          l
  answer_claim-Kept req (granted r, s') l h = inl (omega arith)
  answer_claim-Kept req (conflicted r report, s') l h = inr h
  answer_claim-Kept req (failed e, s') l h = inr h

  pub handle_claim-IsCareful :
      (body : Body) → IsCareful (Coordination.handle_claim json store bodies set now body)
  unfolding Coordination.handle_claim claim
  handle_claim-IsCareful body = decoded-IsCareful (bodies.claim_request body) _ (λ req.
      valid-IsCareful (validate_agent_id req.agent_id) _ (
        valid-IsCareful (validate_resource_uri req.resource_uri) _ (
          valid-IsCareful (validate_intent req.intent) _ (λ l.
            answer_claim-Kept req
              (claim json store.log set.namespace set.decimal set.path_match now req l.store) l
              (decide_claim-LeftUnlessGranted (claim_of set.decimal now req)
                (store.log.active_claims now set.namespace req.resource_uri l.store) l.store)))))
