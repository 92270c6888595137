-- ===== src/Tests/Fixtures.antt =====
-- Concrete payloads, clocks, claims and logs for the tests.
use hearsay.Base.{ℕ, Bool, false, [], Option, none, some}
use hearsay.Base.Int.{pos, Time}
use hearsay.Base.Text.{Text, codes}
use hearsay.Claims.{op_write, Claim}
use hearsay.Provider.{Message, MessageType, msg_claim, msg_release, msg_heartbeat, Json}

-- A payload as its decoded form.
pub data Body : Type 0 where
  claim_body : Claim → Body
  id_body : Text → Body
  junk : Body

abbrev pub body_claim : Body → Option Claim
body_claim (claim_body c) = some c
body_claim (id_body t) = none
body_claim junk = none

abbrev pub body_id : Body → Option Text
body_id (claim_body c) = some c.claim_id
body_id (id_body t) = some t
body_id junk = none

abbrev pub sample_json : Json Body
sample_json = record {
  decode_claim = body_claim;
  decode_claim_id = body_id;
  encode_claim = claim_body;
  encode_release = λ id outcome now. id_body id;
  encode_heartbeat = λ id now. id_body id;
  encode_transfer = λ id to now. id_body id;
  encode_intent = λ id intent now. id_body id;
}

-- A matcher that knows no pattern.
abbrev pub no_glob : Text → Text → Bool
no_glob p s = false

abbrev pub at_second : ℕ → Time
at_second n = pos n

abbrev pub main_ns : Text
main_ns = codes "main"

abbrev pub file_a : Text
file_a = codes "file://a"

abbrev pub write_claim : Claim
write_claim = record {
  claim_id = codes "c1";
  agent_id = codes "alice";
  resource_uri = file_a;
  operation = op_write;
  intent = codes "edit";
  projected_end = [];
  ttl_seconds = pos 60;
  parent_claim_id = [];
  created_at = pos 1000;
}

abbrev pub bob_claim : Claim
bob_claim = record write_claim { claim_id = codes "c2"; agent_id = codes "bob" }

abbrev pub message_at : ℕ → MessageType → Body → Time → Message Body
message_at o t b at = record {
  offset = pos o;
  type = t;
  namespace = main_ns;
  agent_id = codes "alice";
  payload = b;
  timestamp = at;
}

abbrev pub claim_message : Message Body
claim_message = message_at 2 msg_claim (claim_body write_claim) (pos 1000)

abbrev pub release_message : ℕ → Message Body
release_message o = message_at o msg_release (id_body (codes "c1")) (pos 2000)

abbrev pub heartbeat_message : Message Body
heartbeat_message = message_at 3 msg_heartbeat (id_body (codes "c1")) (pos 5000)
