-- ===== src/Sql.antt =====
-- What the SQL of the providers' statements means, on tables as lists of rows in the order of their
-- insertion. `refuses n` says that the engine refuses the statement number `n` of a call: a lost
-- connection, a full disk. A statement that breaks a primary key fails whatever the engine does.
pub mod Laws
use hearsay.Base.{
  ℕ, suc, Bool, true, false, not, List, [], ◌∷◌, ◌++◌, Option, none, some, filter, map, any, take,
  if◌then◌else◌,
}
use hearsay.Base.Int.{ℤ, pos, pos_part, leb_ℤ, ltb_ℤ, two63, ◌+ℤ◌}
use hearsay.Provider.{Error, Result, ok, err, provider_failure, constraint_failed}

-- A call on a database in the state `S`.
abbrev pub Session : Type 0 → Type 0 → Type 0
Session S A = S → Result A × S

module _ {S A B : Type 0} where
  abbrev pub continue : Result A → (A → Session S B) → Session S B
  continue (ok a) f s = f a s
  continue (err e) f s = (err e, s)

  infixl 10 ◌>>=◌ ◌>>◌
  abbrev pub ◌>>=◌ : Session S A → (A → Session S B) → Session S B
  ◌>>=◌ m f s = let (r, s') = m s in continue r f s'

  abbrev pub ◌>>◌ : Session S A → Session S B → Session S B
  ◌>>◌ m n = m >>= λ _. n

module _ {S A : Type 0} where
  abbrev pub pure : A → Session S A
  pure a s = (ok a, s)

  abbrev pub gives : (S → Result A) → Session S A
  gives f s = (f s, s)

  -- A statement, by its number in the call.
  abbrev pub statement : (ℕ → Bool) → ℕ → Session S A → Session S A
  statement refuses n run s = if refuses n then (err provider_failure, s) else run s

module _ {S : Type 0} where
  -- A statement that changes the state, or fails and leaves it.
  abbrev pub replaced : S → Result S → Result (Unit {0}) × S
  replaced s (ok s') = (ok tt, s')
  replaced s (err e) = (err e, s)

  -- `tx.Commit()`, or the deferred `tx.Rollback()` where the body has failed. The body returns the
  -- number of the statement that commits.
  abbrev pub settle : (ℕ → Bool) → S → Result ℕ × S → Result (Unit {0}) × S
  settle refuses s (err e, s') = (err e, s)
  settle refuses s (ok n, s') = if refuses n then (err provider_failure, s) else (ok tt, s')

-- `db.BeginTx`, as the statement 0, and the body.
unfoldable pub in_tx : {S : Type 0} → (ℕ → Bool) → Session S ℕ → Session S (Unit {0})
in_tx refuses body s = if refuses 0 then (err provider_failure, s) else settle refuses s (body s)

module _ {A : Type 0} where
  -- INSERT, on a table whose key `same` compares.
  unfoldable pub insert_row : (A → A → Bool) → A → List A → Result (List A)
  insert_row same row rows =
      if any (same row) rows then err constraint_failed else ok (rows ++ (row ∷ []))

  -- DELETE … WHERE, and UPDATE … WHERE.
  unfoldable pub delete_where : (A → Bool) → List A → List A
  delete_where p rows = filter (λ r. not (p r)) rows

  unfoldable pub update_where : (A → Bool) → (A → A) → List A → List A
  update_where p f rows = map (λ r. if p r then f r else r) rows

  -- The first row of a result, or `sql.ErrNoRows`.
  abbrev pub first_row : Error → List A → Result A
  first_row e [] = err e
  first_row e (r ∷ rows) = ok r

  -- A row goes before the first whose key is greater.
  unfoldable pub place_by : (A → ℤ) → A → List A → List A
  place_by key row [] = row ∷ []
  place_by key row (r ∷ rows) =
      let rest = place_by key row rows in
      if ltb_ℤ (key row) (key r) then row ∷ r ∷ rows else r ∷ rest

  unfoldable pub order_from : (A → ℤ) → List A → List A → List A
  order_from key done [] = done
  order_from key done (r ∷ rows) = order_from key (place_by key r done) rows

  -- ORDER BY an integer column; rows with one key keep their order.
  unfoldable pub order_by : (A → ℤ) → List A → List A
  order_by key rows = order_from key [] rows

  -- LIMIT, which the providers add where the limit is positive.
  abbrev pub limit_rows : ℤ → List A → List A
  limit_rows limit rows = if ltb_ℤ (pos 0) limit then take (pos_part limit) rows else rows

-- MAX over a column, with NULLs left out.
unfoldable pub max_of : Option ℤ → List (Option ℤ) → Option ℤ
max_of m [] = m
max_of m (none ∷ vs) = max_of m vs
max_of none (some v ∷ vs) = max_of (some v) vs
max_of (some m) (some v ∷ vs) = max_of (some (if ltb_ℤ m v then v else m)) vs

abbrev pub coalesce : Option ℤ → ℤ → ℤ
coalesce none d = d
coalesce (some v) d = v

-- `SELECT COALESCE(MAX(column), 0) + 1`, scanned into an int64: a sum that is none is an error.
unfoldable pub next_of : List (Option ℤ) → Result ℤ
next_of vs =
    let n = coalesce (max_of none vs) (pos 0) +ℤ pos 1 in
    if ltb_ℤ n (pos two63) then ok n else err provider_failure
