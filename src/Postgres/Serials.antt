-- ===== src/Postgres/Serials.antt =====
-- The offsets that PostgreSQL gives to messages (internal/postgres/postgres.go).
use mathlib.Core.List.{append_assoc, append-nil}
use hearsay.Base.{
  ℕ, suc, ◌≤◌, ◌≡◌, refl, sym, ap, ◌∙◌, ◌⊎◌, inl, inr, Bool, List, [], ◌∷◌, ◌++◌, All, All-append,
  length-append, any, length, ltb, arith, Bool-cases,
}
use hearsay.Base.Int.{ℤ, pos, Time, ◌+ℤ◌, ◌<ℤ◌, ◌≤ℤ◌, wrap64, two63, eq_ℤ}
use hearsay.Base.Text.{Text}
use hearsay.Provider.{Result-cases, Message, Error, Result, ok, err}
use hearsay.Sql.{insert_row}
use hearsay.Sqlite.{Row}
use hearsay.Sqlite.Log.{new_row, next_seq}
use hearsay.Postgres.{Database, insert_message, insert_all, append, in_tx, settle}

module _ {Payload : Type 0} where
  -- No row has an offset that the sequence has not given yet.
  abbrev pub IsBelow : ℕ → List (Row Payload) → Type 0
  IsBelow n rows = All (λ (r : Row Payload). r.offset ≤ℤ pos n) rows

  IsBelow-later : (n k : ℕ) (rows : List (Row Payload)) → n ≤ k → IsBelow n rows → IsBelow k rows
  IsBelow-later n k [] le h = tt
  IsBelow-later n k (r ∷ rows) le h = (ground arith, IsBelow-later n k rows le h.1)

  raised :
      {n k : ℕ}
      → n ≤ k
      → (rows : List (Row Payload)) → All (λ (r : Row Payload). pos k <ℤ r.offset) rows
      → All (λ (r : Row Payload). pos n <ℤ r.offset) rows
  raised le [] h = tt
  raised le (r ∷ rows) h = (ground arith, raised le rows h.1)

  -- The rows that a database has behind those of another are new: the sequence had not given their
  -- offsets before.
  pub record Grown (count : ℕ) (d d' : Database Payload) : Type 0 where
    pub rows : List (Row Payload)
    pub behind : d'.tables.messages ≡ d.tables.messages ++ rows
    pub number : length rows ≡ count
    pub above : All (λ (r : Row Payload). pos d.serial <ℤ r.offset) rows
    pub given : IsBelow d'.serial rows
    pub serial : d.serial ≤ d'.serial

  -- How the loop of the insertions ends.
  abbrev Inserted : ℕ → Database Payload → Result ℕ × Database Payload → Type 0
  Inserted count d out =
      ((e : Error) × (out.0 ≡ err e) × (d.serial ≤ out.1.serial))
      ⊎ ((n : ℕ) × (out.0 ≡ ok n) × Grown count d out.1)

module _ {Payload : Type 0} (refuses : ℕ → Bool) where
  -- How one insertion ends.
  insert_message-cases :
      (now : Time) (ns : Text) (seq : ℤ) (m : Message Payload) (d : Database Payload)
      → let out = insert_message refuses now ns seq m d in
        ((e : Error) × (out.0 ≡ err e) × (d.serial ≤ out.1.serial))
        ⊎ ((out.0 ≡ ok tt) × Grown 1 d out.1)
  unfolding insert_message insert_row new_row
  insert_message-cases now ns seq m d = elim (Bool-cases (ltb (suc d.serial) two63)) [
    | inr full ↦ rw full (inl (_, refl, omega arith))
    | inl room ↦
        (let r = new_row now ns (pos (suc d.serial)) seq m in
          elim (Bool-cases (any (λ (b : Row Payload). eq_ℤ r.offset b.offset) d.tables.messages)) [
            | inl taken ↦ rw (room, taken) (inl (_, refl, omega arith))
            | inr free ↦
                rw (room, free)
                  (inr (
                    refl,
                    record {
                      rows = r ∷ [];
                      behind = refl;
                      number = refl;
                      above = (omega arith, tt);
                      given = (omega arith, tt);
                      serial = omega arith;
                    },
                  ))
          ])
  ]

  -- A row behind the others, and those of the rest of the loop.
  Grown-more :
      (count : ℕ) (d d₁ d₂ : Database Payload)
      → Grown 1 d d₁
      → Grown count d₁ d₂
      → Grown (suc count) d d₂
  Grown-more count d d₁ d₂ g h = record {
    rows = g.rows ++ h.rows;
    behind =
        h.behind
        ∙ (ap (λ (l : List (Row Payload)). l ++ h.rows) g.behind
            ∙ append_assoc d.tables.messages g.rows h.rows);
    number = length-append g.rows h.rows ∙ omega (arith, g.number, h.number);
    above = All-append _ g.rows h.rows g.above (raised g.serial h.rows h.above);
    given =
        All-append _ g.rows h.rows (IsBelow-later d₁.serial d₂.serial g.rows h.serial g.given)
          h.given;
    serial = omega (arith, g.serial, h.serial);
  }

  insert_all-Inserted :
      (now : Time) (ns : Text) (n : ℕ) (seq : ℤ) (msgs : List (Message Payload))
      (d : Database Payload)
      → Inserted (length msgs) d (insert_all refuses now ns n seq msgs d)
  unfolding insert_all
  insert_all-Inserted now ns n seq [] d = inr (
    n,
    refl,
    record {
      rows = [];
      behind = sym (append-nil d.tables.messages);
      number = refl;
      above = tt;
      given = tt;
      serial = omega arith;
    },
  )
  insert_all-Inserted now ns n seq (m ∷ msgs) d = elim (Bool-cases (refuses n)) [
    | inl e ↦ rw e (inl (_, refl, omega arith))
    | inr e ↦ elim (insert_message-cases now ns seq m d) [
      | inl (x, q, le) ↦ rw (e, q) (inl (x, refl, le))
      | inr (q, g) ↦
          (let d₁ = (insert_message refuses now ns seq m d).1 in
            elim (insert_all-Inserted now ns (suc n) (wrap64 (seq +ℤ pos 1)) msgs d₁) [
              | inl (x, q', le) ↦ rw (e, q) (inl (x, q', omega (arith, g.serial, le)))
              | inr (n', q', h) ↦ rw (e, q) (inr (n', q', Grown-more (length msgs) d d₁ _ g h))
            ])
    ]
  ]

  -- What an append may have done.
  pub Appended : ℕ → Database Payload → Result (Unit {0}) × Database Payload → Type 0
  Appended count d out =
      ((e : Error) × (out.0 ≡ err e) × (out.1.tables ≡ d.tables) × (d.serial ≤ out.1.serial))
      ⊎ ((out.0 ≡ ok tt) × Grown count d out.1)

  settle-Appended :
      (count : ℕ) (d : Database Payload) (out : Result ℕ × Database Payload)
      → Inserted count d out
      → Appended count d (settle refuses d out)
  unfolding Appended
  settle-Appended count d out (inl (e, q, le)) = rw q (inl (e, refl, refl, le))
  settle-Appended count d out (inr (n, q, g)) = elim (Bool-cases (refuses n)) [
    | inl f ↦ rw (q, f) (inl (_, refl, refl, g.serial))
    | inr f ↦ rw (q, f) (inr (refl, g))
  ]

  -- Whatever the engine refuses, an append fails and leaves the tables as they were, or it adds a row
  -- for each message, with an offset that the sequence has never given before.
  pub append-Appended :
      (now : Time) (ns : Text) (msgs : List (Message Payload)) (d : Database Payload)
      → Appended (length msgs) d (append refuses now ns msgs d)
  unfolding append in_tx Appended
  append-Appended now ns msgs d = elim (Bool-cases (refuses 0)) [
    | inl e ↦ rw e (inl (_, refl, refl, omega arith))
    | inr e ↦ elim (Bool-cases (refuses 1)) [
      | inl f ↦ rw (e, f) (inl (_, refl, refl, omega arith))
      | inr f ↦ elim (Result-cases (next_seq ns d.tables)) [
        | inr (x, s) ↦ rw (e, f, s) (inl (x, refl, refl, omega arith))
        | inl (seq, s) ↦
            rw (e, f, s)
              (settle-Appended (length msgs) d (insert_all refuses now ns 2 seq msgs d)
                (insert_all-Inserted now ns 2 seq msgs d))
      ]
    ]
  ]
