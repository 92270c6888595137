-- ===== src/Sql/Laws.antt =====
-- Ordering and largest values of columns.
use hearsay.Base.{
  ◌≡◌, refl, sym, ap, ◌∙◌, false, List, [], ◌∷◌, ◌++◌, All, All_get, In-append_right, arith, inl,
}
use hearsay.Base.Int.{ℤ, ◌≤ℤ◌, ltb_ℤ}
use hearsay.Sql.{place_by, order_from, order_by}
use mathlib.Core.List.{append_assoc, append-nil}

not_below : (a b : ℤ) → a ≤ℤ b → ltb_ℤ b a ≡ false
not_below a b h = ground arith

module _ {A : Type 0} (key : A → ℤ) where
  -- Rows whose keys do not descend.
  abbrev pub IsAscending : List A → Type 0
  IsAscending [] = Unit {0}
  IsAscending (r ∷ rows) = All (λ x. key r ≤ℤ key x) rows × IsAscending rows

  place_by-last :
      (row : A) (rows : List A)
      → All (λ x. key x ≤ℤ key row) rows
      → place_by key row rows ≡ rows ++ (row ∷ [])
  unfolding place_by
  place_by-last row [] h = refl
  place_by-last row (r ∷ rows) h =
      rw (not_below (key r) (key row) h.0) (ap (λ (l : List A). r ∷ l) (place_by-last row rows h.1))

  below_new :
      (done : List A) (r : A) (rows : List A)
      → IsAscending (done ++ (r ∷ rows))
      → All (λ x. key x ≤ℤ key r) done
  below_new [] r rows h = tt
  below_new (d ∷ done) r rows h = (
    All_get (λ x. key d ≤ℤ key x) r (done ++ (r ∷ rows)) h.0
        (In-append_right r done (r ∷ rows) (inl refl)),
    below_new done r rows h.1,
  )

  order_from-IsAscending :
      (done rows : List A) → IsAscending (done ++ rows) → order_from key done rows ≡ done ++ rows
  unfolding order_from
  order_from-IsAscending done [] h = sym (append-nil done)
  order_from-IsAscending done (r ∷ rows) h = rw (place_by-last r done (below_new done r rows h)) (
      order_from-IsAscending (done ++ (r ∷ [])) rows (rw (append_assoc done (r ∷ []) rows) h)
      ∙ append_assoc done (r ∷ []) rows)

  -- Ordering by a key leaves rows that ascend as they are.
  pub order_by-IsAscending : (rows : List A) → IsAscending rows → order_by key rows ≡ rows
  unfolding order_by
  order_by-IsAscending rows h = order_from-IsAscending [] rows h
