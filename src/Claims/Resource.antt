-- ===== src/Claims/Resource.antt =====
-- Which resources `resource_matches` takes to overlap (pkg/hearsay/claims.go).
use mathlib.Core.List.{append_assoc}
use hearsay.Base.{
  length, length-append, ◌≡◌, refl, ◌≢◌, sym, ap, Bool, true, false, [], ◌∷◌, ◌++◌, arith,
  Bool-cases, inl, inr, ◌∙◌,
}
use hearsay.Base.Text.{
  Text, codes, text_eq, has_prefix, has_suffix-append, trim_suffix-append, has_prefix-append,
  text_eq_refl, eq_of_text_eq,
}
use hearsay.Claims.{resource_matches, tree_suffix, slash}

-- The pattern for everything below a directory.
abbrev pub tree : Text → Text
tree d = d ++ tree_suffix

-- The pattern for everything below a directory of that directory.
abbrev pub subtree : Text → Text → Text
subtree d s = tree (d ++ (slash ++ s))

tree_suffix-ne-nil : tree_suffix ≢ []
tree_suffix-ne-nil e = cc

has_prefix-cancel : (d a b : Text) → has_prefix (d ++ a) (d ++ b) ≡ has_prefix a b
unfolding has_prefix
has_prefix-cancel [] a b = refl
has_prefix-cancel (x ∷ d) a b = ground (arith, has_prefix-cancel d a b)

stars_no_slash : (s : Text) → has_prefix (codes "**") (s ++ slash) ≡ false
unfolding has_prefix
stars_no_slash [] = refl
stars_no_slash (x ∷ []) = ground arith
stars_no_slash (x ∷ y ∷ []) = ground arith
stars_no_slash (x ∷ y ∷ z ∷ s) = ground arith

subtree-ne-tree : (d s : Text) → subtree d s ≢ tree d
subtree-ne-tree d s e = absurd (
    omega (
      arith,
      ap length e,
      length-append (d ++ (slash ++ s)) tree_suffix,
      length-append d (slash ++ s),
      length-append d tree_suffix,
    ))

module _ (path_match : Text → Text → Bool) where
  pub resource_matches_self : (a : Text) → resource_matches path_match a a ≡ true
  unfolding resource_matches
  resource_matches_self a = rw (text_eq_refl a)

  -- A tree pattern of another text covers exactly what begins with its directory and a slash.
  pub resource_matches-tree :
      (d b : Text) → tree d ≢ b → resource_matches path_match (tree d) b ≡ has_prefix b (d ++ slash)
  unfolding resource_matches
  resource_matches-tree d b h = elim (Bool-cases (text_eq (tree d) b)) [
    | inl e ↦ absurd (h (eq_of_text_eq (tree d) b e))
    | inr e ↦
        rw (e, has_suffix-append d tree_suffix, trim_suffix-append d tree_suffix tree_suffix-ne-nil)
  ]

  -- A claim of a directory's tree is found to overlap one of a tree below it, and the other way
  -- round it is not: for two nested trees the result depends on which of them is asked for.
  pub nested_trees :
      (d s : Text)
      → (resource_matches path_match (tree d) (subtree d s) ≡ true)
        × (resource_matches path_match (subtree d s) (tree d) ≡ false)
  nested_trees d s = (
    resource_matches-tree d (subtree d s) (λ e. subtree-ne-tree d s (sym e))
        ∙ (rw (append_assoc d (slash ++ s) tree_suffix, ← append_assoc d slash (s ++ tree_suffix))
            (has_prefix-append (d ++ slash) (s ++ tree_suffix))),
    resource_matches-tree (d ++ (slash ++ s)) (tree d) (subtree-ne-tree d s)
        ∙ (rw (append_assoc d (slash ++ s) slash) (
            has_prefix-cancel d tree_suffix ((slash ++ s) ++ slash)
            ∙ (unfold has_prefix in stars_no_slash s))),
  )
