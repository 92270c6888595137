-- ===== src/Tests/Server.antt =====
-- The limiter, the audit logger, the tokens and the keys at concrete inputs (internal/server,
-- internal/a2a/auth.go).
use hearsay.Base.{
  ◌≡◌, ◌≢◌, ◌↔◌, ◌⊎◌, ◌++◌, refl, List, [], ◌∷◌, Option, none, some, arith, true, false,
}
use hearsay.Base.Int.{pos, Time, is_before}
use hearsay.Base.Text.{Text, codes, has_prefix, text_eq}
use hearsay.Memory.{Provider, new}
use hearsay.Server.Windows.{run as run_requests}
use hearsay.Server.Audit.{Logger, Entry, audit_coordination, audit_full, audit_security, should_log}
use hearsay.Server.Auditing.{
  Step, logged, received, ticked, trail, all_accepted, IsBounded, should_log-monotone,
  audit_in_order, run-IsBounded, run as run_steps,
}
use hearsay.Server.Guarding.{Headers, bearer, passes, passes_iff}
use hearsay.A2a.Auth.{
  Guard, Jwk, JwksCache, PublicKey, rsa_key, known, check_auth, new_jwks_cache, get_key, parse_jwk,
  collect_keys, fetch,
}
use hearsay.A2a.Keys.{IsListed, get_key-source, check_auth-api_key}
use hearsay.Tests.Fixtures.{Body, main_ns}

abbrev requests : List (Time × Text)
requests =
    (pos 5000000000, codes "bob")
    ∷ (pos 5000000001, [])
    ∷ (pos 5000000002, codes "bob")
    ∷ (pos 6000000001, codes "bob")
    ∷ []

logs_claims : should_log audit_coordination (codes "claim") ≡ true
unfolding should_log text_eq
logs_claims = refl

full_logs_claims : should_log audit_full (codes "claim") ≡ true
full_logs_claims =
    should_log-monotone audit_coordination audit_full (codes "claim") (omega arith) logs_claims

abbrev no_metadata : List (Text × Text) → Text
no_metadata m = []

abbrev logger : Logger (Provider Body)
logger = record { level = audit_security; namespace = main_ns; queue = []; batch = []; store = new }

abbrev entry : Entry
entry = record {
  event_type = codes "claim";
  agent_id = codes "alice";
  resource_uri = codes "file://a";
  outcome = codes "granted";
  metadata = [];
}

abbrev steps : List Step
steps = logged (pos 7) entry ∷ received ∷ logged (pos 8) entry ∷ ticked ∷ []

audit_in_order_example :
    trail no_metadata (run_steps no_metadata steps logger)
    ≡ trail no_metadata logger ++ all_accepted no_metadata steps logger
audit_in_order_example = audit_in_order no_metadata steps logger

start-IsBounded : IsBounded no_metadata logger
start-IsBounded = record { batch = omega arith; queue = omega arith }

run-IsBounded_example : IsBounded no_metadata (run_steps no_metadata steps logger)
run-IsBounded_example = run-IsBounded no_metadata steps logger start-IsBounded

abbrev with_token : Headers
with_token = record { authorization = codes "Bearer abc"; api_key = [] }

passes_iff_example : (passes (codes "abc") with_token ≡ true) ↔ (
    (codes "abc" ≡ [])
    ⊎ (with_token.authorization ≡ bearer ++ codes "abc")
    ⊎ ((with_token.authorization ≡ [])
        × ((with_token.api_key ≡ codes "abc") ⊎ (with_token.api_key ≡ bearer ++ codes "abc"))))
passes_iff_example = passes_iff (codes "abc") with_token

abbrev as_bytes : Text → Option Text
as_bytes t = some t

abbrev rsa_jwk : Jwk
rsa_jwk = record {
  kty = codes "RSA";
  kid = codes "k1";
  n = codes "n";
  e = codes "e";
  x = [];
  y = [];
  crv = [];
}

abbrev rsa : PublicKey
rsa = rsa_key (codes "n") (codes "e")

abbrev cache : JwksCache
cache = new_jwks_cache

key_found : (get_key as_bytes (pos 7) (some (rsa_jwk ∷ [])) (codes "k1") cache).0 ≡ some rsa
unfolding get_key fetch collect_keys parse_jwk text_eq
key_found = refl

get_key-source_example :
    ((cache.keys (codes "k1") ≡ some rsa) × (is_before (pos 7) cache.expires_at ≡ true))
    ⊎ ((ks : List Jwk) × ((some (rsa_jwk ∷ []) ≡ some ks) × IsListed as_bytes (codes "k1") rsa ks))
get_key-source_example =
    get_key-source as_bytes (pos 7) (some (rsa_jwk ∷ [])) (codes "k1") cache rsa key_found

abbrev no_validator : Text → Text → Option Text
no_validator url token = none

abbrev key_guard : Guard
key_guard = record { api_key = codes "key"; bearer_validator_url = []; bearer_jwks_url = [] }

abbrev with_key : Headers
with_key = record { authorization = []; api_key = codes "key" }

abbrev no_agent : Text
no_agent = []

no_bearer : has_prefix with_key.authorization bearer ≡ false
unfolding has_prefix
no_bearer = refl

check_auth-api_key_example :
    (check_auth no_validator no_validator key_guard with_key ≡ known no_agent)
    ↔ ((key_guard.api_key ≢ []) × ((with_key.api_key ≡ key_guard.api_key) × (no_agent ≡ [])))
check_auth-api_key_example =
    check_auth-api_key no_validator no_validator key_guard with_key no_agent no_bearer
