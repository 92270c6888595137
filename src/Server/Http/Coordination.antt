-- ===== src/Server/Http/Coordination.antt =====
-- internal/server/server.go: the handlers of claims, over the client.
use hearsay.Base.{Bool, List, [], ◌∷◌, Option, none, some, if◌then◌else◌}
use hearsay.Base.Int.{Time}
use hearsay.Base.Text.{Text, codes, text_eq}
use hearsay.Claims.{
  Operation, op_read, op_write, op_delete, op_rename, op_refactor, op_other, Outcome,
  outcome_succeeded, outcome_abandoned, outcome_conflicted, outcome_other, Conflict, ConflictReport,
}
use hearsay.Provider.{Json, Result, ok, err}
use hearsay.Client.{
  ClaimRequest, ClaimResponse, ClaimResult, granted, conflicted, failed, claim, release, heartbeat,
  update_intent, check_conflict_for, active_claims,
}
use hearsay.Mail.{validate_agent_id, validate_resource_uri, validate_intent}
use hearsay.Server.Audit.{Entry, Logger, log}
use hearsay.Server.Http.{
  Reply, Request, Bodies, Store, Setting, Handler, reply, no_content, refusal, claim_content,
  locked_content, claims_content, report_content, on_store, decoded, valid, answered, answered_with,
}

-- `hearsay.Operation(text)` and `string(outcome)`.
unfoldable pub operation_of : Text → Operation
operation_of t =
    if text_eq t (codes "read")
    then op_read
    else if text_eq t (codes "write")
    then op_write
    else if text_eq t (codes "delete")
    then op_delete
    else if text_eq t (codes "rename")
    then op_rename
    else if text_eq t (codes "refactor")
    then op_refactor
    else op_other t

unfoldable pub outcome_text : Outcome → Text
outcome_text outcome_succeeded = codes "succeeded"
outcome_text outcome_abandoned = codes "abandoned"
outcome_text outcome_conflicted = codes "conflicted"
outcome_text (outcome_other t) = t

abbrev pub claim_entry : ClaimRequest → Entry
claim_entry req = record {
  event_type = codes "claim";
  agent_id = req.agent_id;
  resource_uri = req.resource_uri;
  outcome = codes "granted";
  metadata = [];
}

abbrev pub release_entry : Text → Outcome → Entry
release_entry claim_id outcome = record {
  event_type = codes "release";
  agent_id = [];
  resource_uri = [];
  outcome = outcome_text outcome;
  metadata = (codes "claim_id", claim_id) ∷ [];
}

abbrev pub conflicts_of : Option ConflictReport → List Conflict
conflicts_of none = []
conflicts_of (some report) = report.conflicts

module _ {Payload : Type 0} where
  -- The reply to a `ConflictError`: 423 in the locking mode, where the response names a conflict.
  abbrev pub refuse_claim : Bool → ClaimResponse → List Conflict → Reply Payload
  refuse_claim locking resp [] = reply 409 (claim_content resp)
  refuse_claim locking resp (c ∷ cs) =
      if locking then reply 423 (locked_content c resp) else reply 409 (claim_content resp)

module _ {Payload S Body : Type 0} (json : Json Payload) (store : Store Payload S)
    (bodies : Bodies Payload Body) (set : Setting) (now : Time) where
  abbrev pub answer_claim : ClaimRequest → ClaimResult × Logger S → Reply Payload × Logger S
  answer_claim req (granted resp, l) =
      (reply 200 (claim_content resp), log set.marshal now (claim_entry req) l)
  answer_claim req (conflicted resp report, l) =
      (refuse_claim set.locking resp (conflicts_of resp.conflict), l)
  answer_claim req (failed e, l) = (reply 500 refusal, l)

  abbrev pub make_claim : ClaimRequest → Handler Payload S
  make_claim req l =
      answer_claim req
        (on_store (claim json store.log set.namespace set.decimal set.path_match now req) l)

  unfoldable pub handle_claim : Body → Handler Payload S
  handle_claim body = decoded (bodies.claim_request body) (λ req.
      valid (validate_agent_id req.agent_id) (
        valid (validate_resource_uri req.resource_uri)
          (valid (validate_intent req.intent) (make_claim req))))

  abbrev pub answer_release :
      Text → Outcome → Result (Unit {0}) × Logger S → Reply Payload × Logger S
  answer_release claim_id outcome (ok u, l) =
      (reply 204 no_content, log set.marshal now (release_entry claim_id outcome) l)
  answer_release claim_id outcome (err e, l) = (reply 500 refusal, l)

  abbrev pub make_release : Text × Outcome → Handler Payload S
  make_release (claim_id, outcome) l =
      answer_release claim_id outcome
        (on_store (release json store.log set.namespace now claim_id outcome) l)

  unfoldable pub handle_release : Body → Handler Payload S
  handle_release body = decoded (bodies.release_request body) make_release

  abbrev pub make_heartbeat : Text → Handler Payload S
  make_heartbeat claim_id l =
      answered (reply 204 no_content) 500
        (on_store (heartbeat json store.log set.namespace now claim_id) l)

  unfoldable pub handle_heartbeat : Body → Handler Payload S
  handle_heartbeat body = decoded (bodies.heartbeat_request body) make_heartbeat

  abbrev pub make_intent : Text × Text → Handler Payload S
  make_intent (claim_id, intent) l =
      answered (reply 204 no_content) 500
        (on_store (update_intent json store.log set.namespace now claim_id intent) l)

  unfoldable pub handle_intent : Body → Handler Payload S
  handle_intent body = decoded (bodies.intent_request body) make_intent

  unfoldable pub handle_query_claims : Request Body → Handler Payload S
  handle_query_claims r l =
      answered_with claims_content
        (active_claims json store.log set.namespace now (r.query (codes "resource")) l.store) l

  unfoldable pub handle_check : Request Body → Handler Payload S
  handle_check r l =
      answered_with report_content
        (check_conflict_for json store.log set.namespace set.path_match now
          (r.query (codes "resource")) (operation_of (r.query (codes "operation"))) l.store)
        l
