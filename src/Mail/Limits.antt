-- ===== src/Mail/Limits.antt =====
-- Which resource URIs are valid (pkg/hearsay/validation.go).
use mathlib.Core.Bool.{false≢true}
use hearsay.Base.{
  ◌≡◌, refl, sym, ap, ◌∙◌, ◌≢◌, ◌≤◌, ◌↔◌, inl, inr, true, false, [], ◌∷◌, ◌++◌, none, some, length,
  ltb, arith, Bool-cases,
}
use hearsay.Base.Text.{
  Text, codes, text_eq, text_eq_iff, text_eq-false, contains, has_prefix, has_prefix-append,
  split_of_has_prefix,
}
use hearsay.Mail.{Invalid, validate_resource_uri}

-- `p` stands somewhere in `s`.
abbrev pub StandsIn : Text → Text → Type 0
StandsIn p s = (a : Text) × ((b : Text) × (s ≡ a ++ (p ++ b)))

StandsIn-of_contains : (s p : Text) → contains s p ≡ true → StandsIn p s
unfolding contains
StandsIn-of_contains [] p h = let (r, e) = split_of_has_prefix [] p h in ([], (r, e))
StandsIn-of_contains (c ∷ s) p h = elim (Bool-cases (has_prefix (c ∷ s) p)) [
  | inl f ↦ let (r, e) = split_of_has_prefix (c ∷ s) p f in ([], (r, e))
  | inr f ↦
      let (a, (b, e)) = StandsIn-of_contains s p (rw f at h) in
      (c ∷ a, (b, ap (λ (t : Text). c ∷ t) e))
]

head_in : (s p : Text) → has_prefix s p ≡ true → contains s p ≡ true
unfolding contains
head_in [] p h = h
head_in (c ∷ s) p h = rw h refl

contains-StandsIn : (a p b : Text) → contains (a ++ (p ++ b)) p ≡ true
unfolding contains
contains-StandsIn [] p b = head_in (p ++ b) p (has_prefix-append p b)
contains-StandsIn (c ∷ a) p b = ground (arith, contains-StandsIn a p b)

some≢none : {i : Invalid} → some i ≢ none
some≢none h = ground arith

at_most : (uri : Text) → ltb 2048 (length uri) ≡ false → length uri ≤ 2048
at_most uri h = ground arith

within : (uri : Text) → length uri ≤ 2048 → ltb 2048 (length uri) ≡ false
within uri h = ground arith

-- A URI is valid exactly where it is not empty, has at most 2048 bytes and has `://` somewhere in it.
pub validate_resource_uri_iff :
    (uri : Text)
    → (validate_resource_uri uri ≡ none)
      ↔ ((uri ≢ []) × ((length uri ≤ 2048) × StandsIn (codes "://") uri))
unfolding validate_resource_uri
validate_resource_uri_iff uri = (
  λ h. elim (Bool-cases (text_eq uri [])) [
    | inl a ↦ absurd (some≢none (rw a at h))
    | inr a ↦ elim (Bool-cases (ltb 2048 (length uri))) [
      | inl b ↦ absurd (some≢none (rw (a, b) at h))
      | inr b ↦ elim (Bool-cases (contains uri (codes "://"))) [
        | inl c ↦ (
          λ e. false≢true (sym a ∙ (text_eq_iff uri []).1 e),
          (at_most uri b, StandsIn-of_contains uri (codes "://") c),
        )
        | inr c ↦ absurd (some≢none (rw (a, b, c) at h))
      ]
    ]
  ],
  λ (n, (le, (a, (b, e)))).
      let found : contains uri (codes "://") ≡ true = rw e (contains-StandsIn a (codes "://") b) in
      rw (text_eq-false uri n, within uri le, found) refl,
)
