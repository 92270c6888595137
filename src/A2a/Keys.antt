-- ===== src/A2a/Keys.antt =====
-- Which keys the cache hands out, and whom a request is taken for (internal/a2a/auth.go).
use mathlib.Core.Bool.{false≢true}
use hearsay.Base.{
  ◌≡◌, refl, ◌≢◌, ◌⊎◌, ◌↔◌, inl, inr, sym, ◌∙◌, ap, true, false, List, [], ◌∷◌, Option, none, some,
  In, arith, Bool-cases,
}
use hearsay.Base.Int.{Time, is_before}
use hearsay.Base.Text.{
  Text, has_prefix, text_eq, text_eq_refl, text_eq-false, text_eq_iff, eq_of_text_eq,
}
use hearsay.Server.Guarding.{Headers, bearer}
use hearsay.A2a.Auth.{
  Guard, Checked, known, refused, AuthError, check_auth, PublicKey, Jwk, JwksCache, parse_jwk,
  add_key, collect_keys, fetch, get_key, is_fresh, fetched_key,
}

none≢some : {key : PublicKey} → none ≢ some key
none≢some h = ground arith

refused≢known : {r : AuthError} {agent : Text} → refused r ≢ known agent
refused≢known h = ground arith

agent_in : Text → Checked → Text
agent_in d (known agent) = agent
agent_in d (refused r) = d

known_inj : {a b : Text} → known a ≡ known b → a ≡ b
unfolding agent_in
known_inj {b = b} h = ap (agent_in b) h

differ : (t : Text) → text_eq t [] ≡ false → t ≢ []
differ t f e = false≢true (sym f ∙ (text_eq_iff t []).1 e)

module _ (base64url_decode : Text → Option Text) where
  -- `key` is what some key of the answer with this id is parsed to.
  abbrev pub IsListed : Text → PublicKey → List Jwk → Type 0
  IsListed kid key ks =
      (k : Jwk) × (In k ks × ((k.kid ≡ kid) × (parse_jwk base64url_decode k ≡ some key)))

  add_key-source :
      (id kid : Text) (o : Option PublicKey) (keys : Text → Option PublicKey) (key : PublicKey)
      → add_key base64url_decode id o keys kid ≡ some key
      → ((id ≡ kid) × (o ≡ some key)) ⊎ (keys kid ≡ some key)
  add_key-source id kid none keys key e = inr e
  add_key-source id kid (some new) keys key e = elim (Bool-cases (text_eq id kid)) [
    | inl q ↦ inl (eq_of_text_eq id kid q, rw q at e)
    | inr q ↦ inr (rw q at e)
  ]

  collect_keys-IsListed :
      (ks : List Jwk) (keys : Text → Option PublicKey) (kid : Text) (key : PublicKey)
      → collect_keys base64url_decode ks keys kid ≡ some key
      → IsListed kid key ks ⊎ (keys kid ≡ some key)
  unfolding collect_keys
  collect_keys-IsListed [] keys kid key e = inr e
  collect_keys-IsListed (k ∷ ks) keys kid key e =
      elim (collect_keys-IsListed ks
        (add_key base64url_decode k.kid (parse_jwk base64url_decode k) keys) kid key e) [
          | inl (j, (i, r)) ↦ inl (j, (inr i, r))
          | inr f ↦ elim (add_key-source k.kid kid (parse_jwk base64url_decode k) keys key f) [
            | inl (q, p) ↦ inl (k, (inl refl, (q, p)))
            | inr old ↦ inr old
          ]
        ]

  fresh_is_before :
      (now : Time) (o : Option PublicKey) (c : JwksCache)
      → is_fresh base64url_decode now o c ≡ true
      → is_before now c.expires_at ≡ true
  fresh_is_before now none c e = absurd (false≢true e)
  fresh_is_before now (some key) c e = e

  fetched-IsListed :
      (now : Time) (answer : Option (List Jwk)) (kid : Text) (c : JwksCache) (key : PublicKey)
      → (fetched_key base64url_decode kid (fetch base64url_decode now answer c)).0 ≡ some key
      → (ks : List Jwk) × ((answer ≡ some ks) × IsListed kid key ks)
  unfolding fetch
  fetched-IsListed now none kid c key e = absurd (none≢some e)
  fetched-IsListed now (some ks) kid c key e =
      elim (collect_keys-IsListed ks (λ kid. none) kid key e) [
        | inl l ↦ (ks, (refl, l))
        | inr f ↦ absurd (none≢some f)
      ]

  -- A key that the cache hands out was in the cache, not expired, or is in the answer that the
  -- endpoint gave just now.
  pub get_key-source :
      (now : Time) (answer : Option (List Jwk)) (kid : Text) (c : JwksCache) (key : PublicKey)
      → (get_key base64url_decode now answer kid c).0 ≡ some key
      → ((c.keys kid ≡ some key) × (is_before now c.expires_at ≡ true))
        ⊎ ((ks : List Jwk) × ((answer ≡ some ks) × IsListed kid key ks))
  unfolding get_key
  get_key-source now answer kid c key e =
      elim (Bool-cases (is_fresh base64url_decode now (c.keys kid) c)) [
        | inl f ↦ inl (rw f at e, fresh_is_before now (c.keys kid) c f)
        | inr f ↦ inr (fetched-IsListed now answer kid c key (rw f at e))
      ]

module _ (validate_external validate_jwt : Text → Text → Option Text) where
  -- A request without a Bearer header is let in exactly where an API key is configured and it
  -- carries that key; it then comes without the name of an agent.
  pub check_auth-api_key :
      (g : Guard) (h : Headers) (agent : Text)
      → has_prefix h.authorization bearer ≡ false
      → (check_auth validate_external validate_jwt g h ≡ known agent)
        ↔ ((g.api_key ≢ []) × ((h.api_key ≡ g.api_key) × (agent ≡ [])))
  unfolding check_auth
  check_auth-api_key g h agent e = (
    λ q. elim (Bool-cases (text_eq g.api_key [])) [
      | inl a ↦ absurd (refused≢known (rw (a, e) at q))
      | inr a ↦ elim (Bool-cases (text_eq h.api_key g.api_key)) [
        | inl b ↦ (
          differ g.api_key a,
          (eq_of_text_eq h.api_key g.api_key b, sym (known_inj (rw (a, b) at q))),
        )
        | inr b ↦ absurd (refused≢known (rw (a, b, e) at q))
      ]
    ],
    λ (n, (k, ag)). rw (text_eq-false g.api_key n, k, text_eq_refl g.api_key, ag) refl,
  )
