-- ===== src/A2a/Auth.antt =====
-- internal/a2a/auth.go: who a request comes from, and the cache of the keys that sign tokens.
-- The validator's and the key endpoint's answers, package jwt and the decoding of base64 are
-- parameters.
use hearsay.Base.{
  ◌*◌, Bool, true, false, not, ◌&&◌, List, [], ◌∷◌, Option, none, some, if◌then◌else◌,
}
use hearsay.Base.Int.{pos, ◌+ℤ◌, Time, is_before, zero_time, second}
use hearsay.Base.Text.{Text, codes, text_eq, has_prefix, trim_prefix}
use hearsay.Memory.{update}
use hearsay.Server.Guarding.{Headers, bearer}

-- An `AuthMiddleware` without its cache.
pub record Guard : Type 0 where
  pub api_key : Text
  pub bearer_validator_url : Text
  pub bearer_jwks_url : Text

pub data AuthError : Type 0 where
  invalid_bearer_token invalid_jwt_token bearer_not_configured invalid_api_key : AuthError
  missing_authorization : AuthError

-- The agent, which is empty for a request that the API key lets in.
pub data Checked : Type 0 where
  known : Text → Checked
  refused : AuthError → Checked

-- `AuthResult` of a validator: `none` is not OK.
abbrev pub as_known : AuthError → Option Text → Checked
as_known e none = refused e
as_known e (some agent) = known agent

module _ (validate_external validate_jwt : Text → Text → Option Text) where
  abbrev pub check_bearer : Guard → Text → Checked
  check_bearer g token =
      if not (text_eq g.bearer_validator_url [])
      then as_known invalid_bearer_token (validate_external g.bearer_validator_url token)
      else if not (text_eq g.bearer_jwks_url [])
      then as_known invalid_jwt_token (validate_jwt g.bearer_jwks_url token)
      else refused bearer_not_configured

  unfoldable pub check_auth : Guard → Headers → Checked
  check_auth g h =
      if not (text_eq g.api_key []) && text_eq h.api_key g.api_key
      then known []
      else if has_prefix h.authorization bearer
      then check_bearer g (trim_prefix h.authorization bearer)
      else if not (text_eq g.api_key [])
      then refused invalid_api_key
      else refused missing_authorization

pub data Curve : Type 0 where
  p256 p384 p521 : Curve

-- A public key, its numbers as the bytes that they are read from.
pub data PublicKey : Type 0 where
  rsa_key : Text → Text → PublicKey
  ecdsa_key : Curve → Text → Text → PublicKey

pub record Jwk : Type 0 where
  pub kty : Text
  pub kid : Text
  pub n : Text
  pub e : Text
  pub x : Text
  pub y : Text
  pub crv : Text

pub record JwksCache : Type 0 where
  pub keys : Text → Option PublicKey
  pub expires_at : Time

abbrev pub new_jwks_cache : JwksCache
new_jwks_cache = record { keys = λ kid. none; expires_at = zero_time }

abbrev pub curve_of : Text → Option Curve
curve_of crv =
    if text_eq crv (codes "P-256")
    then some p256
    else if text_eq crv (codes "P-384")
    then some p384
    else if text_eq crv (codes "P-521")
    then some p521
    else none

abbrev pub both : {A : Type 0} → (Text → Text → Option A) → Option Text → Option Text → Option A
both f none b = none
both f (some a) none = none
both f (some a) (some b) = f a b

abbrev pub with_curve : Text → Text → Option Curve → Option PublicKey
with_curve x y none = none
with_curve x y (some c) = some (ecdsa_key c x y)

module _ (base64url_decode : Text → Option Text) where
  unfoldable pub parse_jwk : Jwk → Option PublicKey
  parse_jwk k =
      if text_eq k.kty (codes "RSA")
      then both (λ n e. some (rsa_key n e)) (base64url_decode k.n) (base64url_decode k.e)
      else if text_eq k.kty (codes "EC")
      then both (λ x y. with_curve x y (curve_of k.crv)) (base64url_decode k.x)
          (base64url_decode k.y)
      else none

  abbrev pub add_key : Text → Option PublicKey → (Text → Option PublicKey) → Text → Option PublicKey
  add_key kid none keys = keys
  add_key kid (some key) keys = update kid (some key) keys

  -- The loop of `fetch`, over what it put into the map so far.
  unfoldable pub collect_keys : List Jwk → (Text → Option PublicKey) → Text → Option PublicKey
  collect_keys [] keys = keys
  collect_keys (k ∷ ks) keys = collect_keys ks (add_key k.kid (parse_jwk k) keys)

  -- What the endpoint answers: `none` where the call, its status or its decoding fails.
  unfoldable pub fetch : Time → Option (List Jwk) → JwksCache → Bool × JwksCache
  fetch now none c = (false, c)
  fetch now (some ks) c = (
    true,
    record { keys = collect_keys ks (λ kid. none); expires_at = now +ℤ pos (300 * second) },
  )

  abbrev pub is_fresh : Time → Option PublicKey → JwksCache → Bool
  is_fresh now none c = false
  is_fresh now (some key) c = is_before now c.expires_at

  abbrev pub fetched_key : Text → Bool × JwksCache → Option PublicKey × JwksCache
  fetched_key kid (false, c) = (none, c)
  fetched_key kid (true, c) = (c.keys kid, c)

  -- The second test under the write lock sees what the first saw.
  unfoldable pub get_key :
      Time → Option (List Jwk) → Text → JwksCache → Option PublicKey × JwksCache
  get_key now answer kid c =
      if is_fresh now (c.keys kid) c then (c.keys kid, c) else fetched_key kid (fetch now answer c)
