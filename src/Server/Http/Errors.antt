-- ===== src/Server/Http/Errors.antt =====
-- Every request that is answered with an error changes nothing behind the provider
-- (internal/server/server.go, internal/server/mailbox_handlers.go).
use hearsay.Base.{◌≤◌, ◌≡◌, refl, inl, inr, ◌||◌, [], ◌∷◌, arith, Bool-cases}
use hearsay.Base.Int.{Time}
use hearsay.Base.Text.{Text, codes, text_eq}
use hearsay.Provider.{msg_release, msg_heartbeat, msg_intent, Json}
use hearsay.Client.{release, heartbeat, update_intent, outgoing}
use hearsay.Mail.{Letter, send, validate_agent_id, validate_namespace}
use hearsay.Server.Audit.{Logger}
use hearsay.Server.Guarding.{passes}
use hearsay.Server.RateLimit.{Windows, Answer, unlimited, served, blocked, wrap, agent_of_header}
use hearsay.Server.Http.{
  Request, Bodies, Store, Setting, Handler, reply, no_content, accepted, decoded,
}
use hearsay.Server.Http.Coordination
use hearsay.Server.Http.Proxy
use hearsay.Server.Http.Mailbox
use hearsay.Server.Http.Refusing.{
  IsAtomic, Kept, IsCareful, log-store, decoded-IsCareful, valid-IsCareful, answered-Kept,
  answered_with-Kept, handle_claim-IsCareful,
}
use hearsay.Server.Http.Serve.{
  Endpoint, Site, at_health, at_claims, at_check, at_mailbox, at_query, at_agents, at_claim,
  at_release, at_heartbeat, at_intent, at_message, at_read, at_archive, at_create, at_delete,
  at_append, at_expire, is_guarded, handle, authorized, admitted, rate_limited, serve,
  blocked_entry, unauthorized_entry,
}
use hearsay.Server.Http.Letters.{answer_release-Kept, send-LeftUnlessSent, answer_letter-Kept}

module _ {Payload S Body : Type 0} (json : Json Payload) (store : Store Payload S)
    (bodies : Bodies Payload Body) (set : Setting) (now : Time) (new_id : Text)
    (atomic : IsAtomic store) where
  only-IsCareful :
      (method : Text) (r : Request Body) (h : Handler Payload S)
      → IsCareful h
      → IsCareful (Mailbox.only store bodies now method r h)
  only-IsCareful method r h careful l = elim (Bool-cases (text_eq r.method method)) [
    | inl e ↦ rw e (careful l)
    | inr e ↦ rw e (inr refl)
  ]

  letter-IsCareful :
      (letter : Text × Letter) → IsCareful (Mailbox.send_letter store bodies now new_id letter)
  letter-IsCareful (ns, letter) = valid-IsCareful (validate_namespace ns) _ (
      valid-IsCareful (validate_agent_id letter.from) _ (
        valid-IsCareful (Mailbox.validate_to letter.to) _ (λ l.
          answer_letter-Kept Payload
            (send (store.send_message now) new_id now now ns letter l.store) l
            (send-LeftUnlessSent (store.send_message now) new_id now now ns letter l.store
              (λ msg e. atomic.send_message now ns msg l.store e)))))

  read_mailbox-IsCareful : (r : Request Body) → IsCareful (Mailbox.read_mailbox store bodies now r)
  read_mailbox-IsCareful r l =
      elim (Bool-cases
        (text_eq (r.query (codes "namespace")) [] || text_eq (r.query (codes "agent_id")) [])) [
          | inl e ↦ rw e (inr refl)
          | inr e ↦ rw e (
              answered_with-Kept _
                (store.get_mailbox now (r.query (codes "namespace")) (r.query (codes "agent_id"))
                  (Mailbox.mail_opts store bodies now r) l.store)
                l)
        ]

  handle-IsCareful :
      (e : Endpoint) (r : Request Body) → IsCareful (handle json store bodies set now new_id e r)
  unfolding handle Coordination.handle_query_claims Coordination.handle_check
      Coordination.handle_release Coordination.handle_heartbeat Coordination.handle_intent release
      heartbeat update_intent Proxy.handle_query Proxy.handle_agent_state
      Proxy.handle_create_namespace Proxy.handle_delete_namespace Proxy.handle_append
      Proxy.handle_release_expired Mailbox.handle_send_message Mailbox.handle_get_mailbox
      Mailbox.handle_mark_read Mailbox.handle_archive_message
  handle-IsCareful at_health r l = inr refl
  handle-IsCareful at_claims r l = answered_with-Kept _ _ l
  handle-IsCareful at_check r l = answered_with-Kept _ _ l
  handle-IsCareful at_mailbox r l =
      only-IsCareful (codes "GET") r (Mailbox.read_mailbox store bodies now r)
        (read_mailbox-IsCareful r) l
  handle-IsCareful at_query r l = answered_with-Kept _ _ l
  handle-IsCareful at_agents r l = answered_with-Kept _ _ l
  handle-IsCareful at_claim r l = handle_claim-IsCareful json store bodies set now atomic r.body l
  handle-IsCareful at_release r l =
      decoded-IsCareful (bodies.release_request r.body) _
        (λ req l.
          answer_release-Kept json store bodies set now req.0 req.1
            (release json store.log set.namespace now req.0 req.1 l.store) l
            (atomic.append now set.namespace
              (outgoing msg_release [] (json.encode_release req.0 req.1 now) ∷ []) l.store))
        l
  handle-IsCareful at_heartbeat r l =
      decoded-IsCareful (bodies.heartbeat_request r.body) _
        (λ id l.
          answered-Kept (reply 204 no_content) 500
            (heartbeat json store.log set.namespace now id l.store) l (omega arith)
            (atomic.append now set.namespace
              (outgoing msg_heartbeat [] (json.encode_heartbeat id now) ∷ []) l.store))
        l
  handle-IsCareful at_intent r l =
      decoded-IsCareful (bodies.intent_request r.body) _
        (λ req l.
          answered-Kept (reply 204 no_content) 500
            (update_intent json store.log set.namespace now req.0 req.1 l.store) l (omega arith)
            (atomic.append now set.namespace
              (outgoing msg_intent [] (json.encode_intent req.0 req.1 now) ∷ []) l.store))
        l
  handle-IsCareful at_message r l =
      only-IsCareful (codes "POST") r
        (decoded (bodies.letter_request r.body) (Mailbox.send_letter store bodies now new_id))
        (decoded-IsCareful (bodies.letter_request r.body) _ letter-IsCareful) l
  handle-IsCareful at_read r l =
      only-IsCareful (codes "POST") r
        (decoded (bodies.action_request r.body) (Mailbox.mark store bodies now))
        (decoded-IsCareful (bodies.action_request r.body) _ (λ req l.
          answered-Kept (reply 200 accepted) 404 (store.mark_read req.0 req.1 l.store) l
            (omega arith) (atomic.mark_read req.0 req.1 l.store)))
        l
  handle-IsCareful at_archive r l =
      only-IsCareful (codes "POST") r
        (decoded (bodies.action_request r.body) (Mailbox.archive store bodies now))
        (decoded-IsCareful (bodies.action_request r.body) _ (λ req l.
          answered-Kept (reply 200 accepted) 404 (store.archive_message req.0 req.1 l.store) l
            (omega arith) (atomic.archive_message req.0 req.1 l.store)))
        l
  handle-IsCareful at_create r l =
      decoded-IsCareful (bodies.namespace_request r.body) _
        (λ ns l.
          answered-Kept (reply 200 no_content) 500 (store.create_namespace ns l.store) l
            (omega arith) (atomic.create_namespace ns l.store))
        l
  handle-IsCareful at_delete r l =
      decoded-IsCareful (bodies.deletion_request r.body) _
        (λ id l.
          answered-Kept (reply 200 no_content) 500 (store.delete_namespace id l.store) l
            (omega arith) (atomic.delete_namespace id l.store))
        l
  handle-IsCareful at_append r l =
      decoded-IsCareful (bodies.append_request r.body) _
        (λ req l.
          answered-Kept (reply 200 no_content) 500 (store.log.append now req.0 req.1 l.store) l
            (omega arith) (atomic.append now req.0 req.1 l.store))
        l
  handle-IsCareful at_expire r l =
      decoded-IsCareful (bodies.expiry_request r.body) _
        (λ req l.
          answered-Kept (reply 200 no_content) 500 (store.release_expired req.0 req.1 l.store) l
            (omega arith) (atomic.release_expired req.0 req.1 l.store))
        l

  authorized-IsCareful :
      (r : Request Body) (h : Handler Payload S)
      → IsCareful h
      → IsCareful (authorized json store bodies set now new_id r h)
  unfolding authorized
  authorized-IsCareful r h careful l = elim (Bool-cases (passes set.token r.headers)) [
    | inl e ↦ rw e (careful l)
    | inr e ↦ rw e (inr (log-store set.marshal now unauthorized_entry l))
  ]

  admitted-Kept :
      (answer : Answer) (ws : Windows) (agent : Text) (h : Handler Payload S) (l : Logger S)
      → IsCareful h
      → let out = admitted json store bodies set now new_id answer ws agent h l in
        Kept (out.0, out.1.logger) l
  admitted-Kept unlimited ws agent h l careful = careful l
  admitted-Kept (served n) ws agent h l careful = careful l
  admitted-Kept (blocked n) ws agent h l careful =
      inr (log-store set.marshal now (blocked_entry agent) l)

  serve-Kept :
      (e : Endpoint) (r : Request Body) (site : Site S)
      → let out = serve json store bodies set now new_id e r site in
        Kept (out.0, out.1.logger) site.logger
  unfolding serve rate_limited
  serve-Kept e r site = elim (Bool-cases (is_guarded e)) [
    | inr free ↦ rw free (handle-IsCareful e r site.logger)
    | inl guarded ↦ rw guarded (
        admitted-Kept (wrap set.limit now r.agent_header site.windows).0
          (wrap set.limit now r.agent_header site.windows).1 (agent_of_header r.agent_header)
          (authorized json store bodies set now new_id r
            (handle json store bodies set now new_id e r))
          site.logger
          (authorized-IsCareful r (handle json store bodies set now new_id e r)
            (handle-IsCareful e r)))
  ]

  -- Over a provider whose failing calls change nothing, a request that is answered with an error
  -- status leaves the provider's state as it was, whatever the request and its pattern.
  pub error_changes_nothing :
      (e : Endpoint) (r : Request Body) (site : Site S)
      → 400 ≤ (serve json store bodies set now new_id e r site).0.status
      → (serve json store bodies set now new_id e r site).1.logger.store ≡ site.logger.store
  error_changes_nothing e r site failed = elim (serve-Kept e r site) [
    | inl fine ↦ absurd (omega arith)
    | inr same ↦ same
  ]
