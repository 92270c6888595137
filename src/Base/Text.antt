-- ===== src/Base/Text.antt =====
-- Go strings as lists of bytes, with the operations of package `strings` that the source calls.
use Prim.Native.Nat.{ℕ}
use Prim.Native.Char.{code}
use Prim.Native.String.{String}
use mathlib.Core.Path.{◌≡◌, refl, ap, ◌∙◌}
use mathlib.Core.Logic.{◌↔◌, ◌≢◌, inl, inr}
use mathlib.Core.Bool.{Bool, true, false, ◌&&◌, ◌||◌}
use mathlib.Core.List.{List, [], ◌∷◌, ◌++◌}
use native.Mathlib.Omega.{arith}
use hearsay.Base.Tests.{◌==◌, if◌then◌else◌, Bool-cases}
use hearsay.Base.Lists.{length, length-append}

abbrev pub Text : Type 0
Text = List ℕ

-- The bytes of an ASCII literal.
abbrev pub codes : String → Text
codes String.[] = []
codes (String.◌∷◌ c s) = code c ∷ codes s

unfoldable pub text_eq : Text → Text → Bool
text_eq [] [] = true
text_eq [] (y ∷ ys) = false
text_eq (x ∷ xs) [] = false
text_eq (x ∷ xs) (y ∷ ys) = (x == y) && text_eq xs ys

pub text_eq_refl : (a : Text) → text_eq a a ≡ true
unfolding text_eq
text_eq_refl [] = refl
text_eq_refl (x ∷ xs) = ground (arith, text_eq_refl xs)

pub eq_of_text_eq : (a b : Text) → text_eq a b ≡ true → a ≡ b
unfolding text_eq
eq_of_text_eq [] [] h = refl
eq_of_text_eq [] (y ∷ ys) h = cc
eq_of_text_eq (x ∷ xs) [] h = cc
eq_of_text_eq (x ∷ xs) (y ∷ ys) h = ground (arith, eq_of_text_eq xs ys)

pub text_eq_iff : (a b : Text) → (text_eq a b ≡ true) ↔ (a ≡ b)
text_eq_iff a b = (eq_of_text_eq a b, λ e. rw e (text_eq_refl b))

-- `strings.HasPrefix(s, p)`.
unfoldable pub has_prefix : Text → Text → Bool
has_prefix s [] = true
has_prefix [] (p ∷ ps) = false
has_prefix (c ∷ s) (p ∷ ps) = (c == p) && has_prefix s ps

-- `strings.HasSuffix(s, p)`: some end of `s` is `p`.
unfoldable pub has_suffix : Text → Text → Bool
has_suffix [] p = text_eq [] p
has_suffix (c ∷ s) p = text_eq (c ∷ s) p || has_suffix s p

-- `strings.TrimSuffix(s, p)`: what stands before that end, or `s` if there is none.
unfoldable pub trim_suffix : Text → Text → Text
trim_suffix [] p = []
trim_suffix (c ∷ s) p = let rest = trim_suffix s p in if text_eq (c ∷ s) p then [] else c ∷ rest

-- `strings.Contains(s, p)`.
unfoldable pub contains : Text → Text → Bool
contains [] p = has_prefix [] p
contains (c ∷ s) p = has_prefix (c ∷ s) p || contains s p

pub has_prefix-append : (p s : Text) → has_prefix (p ++ s) p ≡ true
unfolding has_prefix
has_prefix-append [] s = refl
has_prefix-append (x ∷ p) s = ground (arith, has_prefix-append p s)

pub split_of_has_prefix : (s p : Text) → has_prefix s p ≡ true → (r : Text) × (s ≡ p ++ r)
unfolding has_prefix
split_of_has_prefix s [] h = (s, refl)
split_of_has_prefix [] (p ∷ ps) h = cc
split_of_has_prefix (c ∷ s) (p ∷ ps) h =
    let (r, e) = split_of_has_prefix s ps (ground arith) in (r, ground arith)

pub has_suffix-append : (s p : Text) → has_suffix (s ++ p) p ≡ true
unfolding has_suffix
has_suffix-append [] [] = text_eq_refl []
has_suffix-append [] (x ∷ p) = rw (text_eq_refl (x ∷ p))
has_suffix-append (c ∷ s) p = ground (arith, has_suffix-append s p)

-- An end of the same length is the whole.
not-suffix_longer : (c : ℕ) (s p : Text) → text_eq (c ∷ (s ++ p)) p ≡ false
not-suffix_longer c s p = elim (Bool-cases (text_eq (c ∷ (s ++ p)) p)) [
  | inl e ↦ absurd (omega (arith, ap length (eq_of_text_eq (c ∷ (s ++ p)) p e), length-append s p))
  | inr e ↦ e
]

pub trim_suffix-append : (s p : Text) → p ≢ [] → trim_suffix (s ++ p) p ≡ s
unfolding trim_suffix
trim_suffix-append [] [] h = absurd (h refl)
trim_suffix-append [] (x ∷ p) h = rw (text_eq_refl (x ∷ p))
trim_suffix-append (c ∷ s) p h =
    rw (not-suffix_longer c s p) (ap (λ (t : Text). c ∷ t) (trim_suffix-append s p h))

-- `s` behind as many bytes as `p` has.
unfoldable pub behind : Text → Text → Text
behind s [] = s
behind [] (p ∷ ps) = []
behind (c ∷ s) (p ∷ ps) = behind s ps

-- `strings.TrimPrefix(s, p)`.
unfoldable pub trim_prefix : Text → Text → Text
trim_prefix s p = if has_prefix s p then behind s p else s

behind-append : (p s : Text) → behind (p ++ s) p ≡ s
unfolding behind
behind-append [] s = refl
behind-append (x ∷ p) s = behind-append p s

pub trim_prefix-append : (p s : Text) → trim_prefix (p ++ s) p ≡ s
unfolding trim_prefix
trim_prefix-append p s = rw (has_prefix-append p s) (behind-append p s)

-- What a Go program tests to read `t` behind the prefix `p`.
pub has_behind_iff :
    (s p t : Text) → ((has_prefix s p && text_eq (trim_prefix s p) t) ≡ true) ↔ (s ≡ p ++ t)
has_behind_iff s p t = (
  λ h.
      let (r, e) = split_of_has_prefix s p (ground arith) in
      let f : r ≡ t =
        eq_of_text_eq r t (rw (e, has_prefix-append p r, trim_prefix-append p r) at h) in
      e ∙ ap (λ (u : Text). p ++ u) f,
  λ e. rw (e, has_prefix-append p t, trim_prefix-append p t, text_eq_refl t) refl,
)

pub text_eq-false : (t : Text) → t ≢ [] → text_eq t [] ≡ false
unfolding text_eq
text_eq-false [] h = absurd (h refl)
text_eq-false (c ∷ t) h = refl
