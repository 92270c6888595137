-- ===== src/Server/Http/Letters.antt =====
-- Releases and mailbox messages that are refused leave the provider's state
-- (internal/server/server.go, internal/server/mailbox_handlers.go).
use hearsay.Base.{◌≡◌, refl, inl, inr, [], arith, Bool-cases}
use hearsay.Base.Int.{Time}
use hearsay.Base.Text.{Text, text_eq}
use hearsay.Claims.{Outcome}
use hearsay.Provider.{is_valid_mailbox_type, MailboxMessage, Json, Error, Result, ok, err}
use hearsay.Mail.{
  Letter, Sent, sent, invalid_type, empty_content, empty_from, empty_to, not_stored, send,
  message_of, validate_agent_id, validate_namespace,
}
use hearsay.Mail as Mail_service
use hearsay.Server.Audit.{Logger}
use hearsay.Server.Http.{Bodies, Store, Setting}
use hearsay.Server.Http.Coordination
use hearsay.Server.Http.Mailbox
use hearsay.Server.Http.Refusing.{Kept}

module _ {Payload S Body : Type 0} (json : Json Payload) (store : Store Payload S)
    (bodies : Bodies Payload Body) (set : Setting) (now : Time) where
  pub answer_release-Kept :
      (id : Text) (outcome : Outcome) (out : Result (Unit {0}) × S) (l : Logger S)
      → ((e : Error) → out.0 ≡ err e → out.1 ≡ l.store)
      → Kept
          (Coordination.answer_release json store bodies set now id outcome
            (out.0, record l { store = out.1 }))
          l
  answer_release-Kept id outcome (ok u, s) l clean = inl (omega arith)
  answer_release-Kept id outcome (err e, s) l clean = inr (clean e refl)

module _ {S : Type 0} where
  -- The service's answer: where no message was stored, the state is as it was.
  abbrev pub LeftUnlessSent : Sent × S → S → Type 0
  LeftUnlessSent (sent id, s') s = Unit {0}
  LeftUnlessSent (invalid_type, s') s = s' ≡ s
  LeftUnlessSent (empty_content, s') s = s' ≡ s
  LeftUnlessSent (empty_from, s') s = s' ≡ s
  LeftUnlessSent (empty_to, s') s = s' ≡ s
  LeftUnlessSent (not_stored e, s') s = s' ≡ s

  sent-LeftUnlessSent :
      (send_message : Text → MailboxMessage → S → Result (Unit {0}) × S) (id : Text)
      (out : Result (Unit {0}) × S) (s : S)
      → ((e : Error) → out.0 ≡ err e → out.1 ≡ s)
      → LeftUnlessSent (Mail_service.answered send_message id out) s
  sent-LeftUnlessSent send_message id (ok u, s') s clean = tt
  sent-LeftUnlessSent send_message id (err e, s') s clean = clean e refl

  pub send-LeftUnlessSent :
      (send_message : Text → MailboxMessage → S → Result (Unit {0}) × S) (id : Text)
      (created clock : Time) (ns : Text) (letter : Letter) (s : S)
      → ((msg : MailboxMessage) (e : Error)
          → (send_message ns msg s).0 ≡ err e
          → (send_message ns msg s).1 ≡ s)
      → LeftUnlessSent (send send_message id created clock ns letter s) s
  unfolding send
  send-LeftUnlessSent send_message id created clock ns letter s clean =
      elim (Bool-cases (is_valid_mailbox_type letter.type)) [
        | inr a ↦ rw a refl
        | inl a ↦ elim (Bool-cases (text_eq letter.content [])) [
          | inl b ↦ rw (a, b) refl
          | inr b ↦ elim (Bool-cases (text_eq letter.from [])) [
            | inl c ↦ rw (a, b, c) refl
            | inr c ↦ elim (Bool-cases (text_eq letter.to [])) [
              | inl d ↦ rw (a, b, c, d) refl
              | inr d ↦
                  rw (a, b, c, d)
                    (sent-LeftUnlessSent send_message id
                      (send_message ns (message_of id created clock letter) s) s
                      (clean (message_of id created clock letter)))
            ]
          ]
        ]
      ]

module _ (Payload : Type 0) {S : Type 0} where
  pub answer_letter-Kept :
      (out : Sent × S) (l : Logger S)
      → LeftUnlessSent out l.store
      → Kept (Mailbox.answer_letter {Payload = Payload} (out.0, record l { store = out.1 })) l
  answer_letter-Kept (sent id, s) l h = inl (omega arith)
  answer_letter-Kept (invalid_type, s) l h = inr h
  answer_letter-Kept (empty_content, s) l h = inr h
  answer_letter-Kept (empty_from, s) l h = inr h
  answer_letter-Kept (empty_to, s) l h = inr h
  answer_letter-Kept (not_stored e, s) l h = inr h
