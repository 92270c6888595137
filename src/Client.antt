-- ===== src/Client.antt =====
-- pkg/hearsay/client.go: the client, over any provider. A method reads the clock once (`now`).
-- `decimal` stands for the formatting of an integer by `fmt.Sprintf("%d")`.
pub mod Laws
pub mod Claiming
pub mod Holding
pub mod Ending
use hearsay.Base.{Bool, true, false, List, [], ◌∷◌, ◌++◌, Option, none, some, if◌then◌else◌}
use hearsay.Base.Int.{ℤ, pos, Time, eq_ℤ, zero_time}
use hearsay.Base.Text.{Text, codes}
use hearsay.Claims.{Operation, Outcome, Claim, ConflictReport, check_conflict}
use hearsay.Provider.{
  Message, MessageType, msg_claim, msg_release, msg_heartbeat, msg_transfer, msg_intent, QueryOpts,
  Json, LogProvider, Error, Result, ok, err,
}
use hearsay.Active.{claim_in}

pub record ClaimRequest : Type 0 where
  pub resource_uri : Text
  pub agent_id : Text
  pub operation : Operation
  pub intent : Text
  pub projected_end : Text
  pub ttl_seconds : ℤ
  pub parent_claim_id : Text

pub record ClaimResponse : Type 0 where
  pub claim_id : Text
  pub conflict : Option ConflictReport

-- What `Claim` returns: a response; a response and a `ConflictError`; or a `ProviderError`.
pub data ClaimResult : Type 0 where
  granted : ClaimResponse → ClaimResult
  conflicted : ClaimResponse → ConflictReport → ClaimResult
  failed : Error → ClaimResult

abbrev pub default_ttl : ℤ
default_ttl = pos 300

-- A message as the client builds it: the fields that it leaves out are zero.
abbrev pub outgoing : {Payload : Type 0} → MessageType → Text → Payload → Message Payload
outgoing t agent payload = record {
  offset = pos 0;
  type = t;
  namespace = [];
  agent_id = agent;
  payload = payload;
  timestamp = zero_time;
}

module _ (decimal : ℤ → Text) where
  unfoldable pub generate_claim_id : Time → Text
  generate_claim_id now = codes "claim_" ++ decimal now

  -- The claim that a request asks for, its TTL defaulted.
  unfoldable pub claim_of : Time → ClaimRequest → Claim
  claim_of now req = record {
    claim_id = generate_claim_id now;
    agent_id = req.agent_id;
    resource_uri = req.resource_uri;
    operation = req.operation;
    intent = req.intent;
    projected_end = req.projected_end;
    ttl_seconds = if eq_ℤ req.ttl_seconds (pos 0) then default_ttl else req.ttl_seconds;
    parent_claim_id = req.parent_claim_id;
    created_at = now;
  }

abbrev check_claim : Text → Operation → Claim
check_claim resource_uri op = record {
  claim_id = [];
  agent_id = codes "_check_";
  resource_uri = resource_uri;
  operation = op;
  intent = [];
  projected_end = [];
  ttl_seconds = pos 0;
  parent_claim_id = [];
  created_at = zero_time;
}

module _ {Payload S : Type 0} (json : Json Payload) (provider : LogProvider Payload S)
    (namespace : Text) where
  abbrev pub finish_claim : Claim → Result (Unit {0}) × S → ClaimResult × S
  finish_claim claim (err e, s) = (failed e, s)
  finish_claim claim (ok u, s) =
      (granted (record { claim_id = claim.claim_id; conflict = none }), s)

  abbrev pub decide_claim :
      (Text → Text → Bool) → Time → Claim → Result (List Claim) → S → ClaimResult × S
  decide_claim path_match now claim (err e) s = (failed e, s)
  decide_claim path_match now claim (ok active) s =
      let report = check_conflict path_match claim active in
      if report.has_conflict
      then (conflicted (record { claim_id = claim.claim_id; conflict = some report }) report, s)
      else finish_claim claim (
          provider.append now namespace
            (outgoing msg_claim claim.agent_id (json.encode_claim claim) ∷ []) s)

  unfoldable pub claim :
      (ℤ → Text) → (Text → Text → Bool) → Time → ClaimRequest → S → ClaimResult × S
  claim decimal path_match now req s =
      decide_claim path_match now (claim_of decimal now req)
        (provider.active_claims now namespace req.resource_uri s) s

  unfoldable pub release : Time → Text → Outcome → S → Result (Unit {0}) × S
  release now claim_id outcome =
      provider.append now namespace
        (outgoing msg_release [] (json.encode_release claim_id outcome now) ∷ [])

  unfoldable pub heartbeat : Time → Text → S → Result (Unit {0}) × S
  heartbeat now claim_id =
      provider.append now namespace
        (outgoing msg_heartbeat [] (json.encode_heartbeat claim_id now) ∷ [])

  unfoldable pub transfer : Time → Text → Text → S → Result (Unit {0}) × S
  transfer now claim_id to_agent_id =
      provider.append now namespace
        (outgoing msg_transfer [] (json.encode_transfer claim_id to_agent_id now) ∷ [])

  unfoldable pub update_intent : Time → Text → Text → S → Result (Unit {0}) × S
  update_intent now claim_id intent =
      provider.append now namespace
        (outgoing msg_intent [] (json.encode_intent claim_id intent now) ∷ [])

  abbrev add_claim : Option Claim → List Claim → List Claim
  add_claim none cs = cs
  add_claim (some c) cs = c ∷ cs

  -- The loop of `QueryClaims`: the claim messages whose payload can be read.
  unfoldable pub collect_claims : List (Message Payload) → List Claim
  collect_claims [] = []
  collect_claims (m ∷ msgs) = add_claim (claim_in json m) (collect_claims msgs)

  abbrev claims_of : Result (List (Message Payload)) → Result (List Claim)
  claims_of (err e) = err e
  claims_of (ok msgs) = ok (collect_claims msgs)

  unfoldable pub query_claims : QueryOpts → S → Result (List Claim)
  query_claims opts s = claims_of (provider.query namespace opts s)

  abbrev report_on : (Text → Text → Bool) → Claim → Result (List Claim) → Result ConflictReport
  report_on path_match claim (err e) = err e
  report_on path_match claim (ok active) = ok (check_conflict path_match claim active)

  unfoldable pub check_conflict_for :
      (Text → Text → Bool) → Time → Text → Operation → S → Result ConflictReport
  check_conflict_for path_match now resource_uri op s =
      report_on path_match (check_claim resource_uri op)
        (provider.active_claims now namespace resource_uri s)

  unfoldable pub active_claims : Time → Text → S → Result (List Claim)
  active_claims now pattern s = provider.active_claims now namespace pattern s
