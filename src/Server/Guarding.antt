-- ===== src/Server/Guarding.antt =====
-- internal/server/middleware.go: the token that a request must carry.
-- A request that passes is given to the next handler; one that does not is answered 401.
use mathlib.Core.Bool.{false≢true}
use hearsay.Base.{
  ◌≡◌, ◌↔◌, ◌⊎◌, inl, inr, refl, sym, ◌∙◌, ◌≢◌, Bool, true, not, ◌&&◌, [], ◌++◌, if◌then◌else◌,
  arith, Bool-cases,
}
use hearsay.Base.Text.{
  Text, codes, text_eq, text_eq_iff, text_eq_refl, has_prefix, trim_prefix, has_behind_iff,
}

-- The two headers that `Wrap` reads; a missing header is empty.
pub record Headers : Type 0 where
  pub authorization : Text
  pub api_key : Text

abbrev pub bearer : Text
bearer = codes "Bearer "

-- The test of the value that is left in `auth`.
abbrev pub has_bearer : Text → Text → Bool
has_bearer token auth = has_prefix auth bearer && text_eq (trim_prefix auth bearer) token

unfoldable pub passes : Text → Headers → Bool
passes token h =
    if text_eq token []
    then true
    else if text_eq h.authorization []
    then (if not (text_eq h.api_key []) && text_eq h.api_key token
        then true
        else has_bearer token h.api_key)
    else has_bearer token h.authorization

nonempty : (token : Text) → bearer ++ token ≢ []
nonempty token h = ground arith

-- A request passes exactly where no token is configured, or it carries the token behind `Bearer `
-- in its Authorization header, or, that header missing, the token in X-Api-Key, bare or behind
-- `Bearer `.
pub passes_iff :
    (token : Text) (h : Headers)
    → (passes token h ≡ true) ↔ (
        (token ≡ [])
        ⊎ (h.authorization ≡ bearer ++ token)
        ⊎ ((h.authorization ≡ []) × ((h.api_key ≡ token) ⊎ (h.api_key ≡ bearer ++ token))))
unfolding passes
passes_iff token h =
    let (token_of, of_token) = text_eq_iff token [] in
    let (bare_of, of_bare) = text_eq_iff h.authorization [] in
    let (key_of, of_key) = text_eq_iff h.api_key token in
    let (empty_of, of_empty) = text_eq_iff h.api_key [] in
    let (auth_of, of_auth) = has_behind_iff h.authorization bearer token in
    let (alt_of, of_alt) = has_behind_iff h.api_key bearer token in
    let yes : (passes token h ≡ true)
        → (token ≡ [])
          ⊎ (h.authorization ≡ bearer ++ token)
          ⊎ ((h.authorization ≡ []) × ((h.api_key ≡ token) ⊎ (h.api_key ≡ bearer ++ token))) =
      λ e. elim (Bool-cases (text_eq token [])) [
        | inl a ↦ inl (token_of a)
        | inr a ↦ elim (Bool-cases (text_eq h.authorization [])) [
          | inr b ↦ inr (inl (auth_of (rw (a, b) at e)))
          | inl b ↦ elim (Bool-cases (not (text_eq h.api_key []) && text_eq h.api_key token)) [
            | inl c ↦ inr (inr (bare_of b, inl (key_of (ground arith))))
            | inr c ↦ inr (inr (bare_of b, inr (alt_of (rw (a, b, c) at e))))
          ]
        ]
      ] in
    (
      yes,
      λ e. elim (Bool-cases (text_eq token [])) [
        | inl a ↦ rw a refl
        | inr a ↦ elim e [
          | inl q ↦ absurd (false≢true (sym a ∙ of_token q))
          | inr (inl q) ↦ elim (Bool-cases (text_eq h.authorization [])) [
            | inl b ↦ absurd (nonempty token (sym q ∙ bare_of b))
            | inr b ↦ rw (a, b) (of_auth q)
          ]
          | inr (inr (n, inl k)) ↦ rw (of_bare n, k, a, text_eq_refl token) refl
          | inr (inr (n, inr k)) ↦
              elim (Bool-cases (not (text_eq h.api_key []) && text_eq h.api_key token)) [
                | inl c ↦ rw (a, of_bare n, c) refl
                | inr c ↦ rw (a, of_bare n, c) (of_alt k)
              ]
        ]
      ],
    )
