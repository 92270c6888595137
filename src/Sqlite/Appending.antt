-- ===== src/Sqlite/Appending.antt =====
-- An append is all or nothing, whatever statement the engine refuses (internal/sqlite/sqlite.go).
use hearsay.Base.{ℕ, ◌≡◌, ◌⊎◌, Bool, List, [], ◌∷◌, ◌++◌}
use hearsay.Base.Int.{ℤ, pos, ◌+ℤ◌, wrap64, Time}
use hearsay.Base.Text.{Text}
use hearsay.Provider.{Message, Error, Result, ok, err}
use hearsay.Sqlite.{Row, Tables}
use hearsay.Sqlite.Log.{new_row, next_offset, next_seq}

module _ {Payload : Type 0} where
  -- The rows of a batch of messages from an offset and a sequence number on.
  unfoldable pub new_rows : Time → Text → ℤ → ℤ → List (Message Payload) → List (Row Payload)
  new_rows now ns offset seq [] = []
  new_rows now ns offset seq (m ∷ msgs) =
      new_row now ns offset seq m
      ∷ new_rows now ns (wrap64 (offset +ℤ pos 1)) (wrap64 (seq +ℤ pos 1)) msgs

  abbrev pub with_rows : Tables Payload → List (Row Payload) → Tables Payload
  with_rows t rows = record t { messages = t.messages ++ rows }

  module _ (refuses : ℕ → Bool) where
    -- The loop of the insertions fails, or inserts every row.
    Inserted : List (Row Payload) → Tables Payload → Result ℕ × Tables Payload → Type 0
    Inserted rows t out =
        ((e : Error) × (out.0 ≡ err e)) ⊎ ((n : ℕ) × (out ≡ (ok n, with_rows t rows)))

    -- What an append may have done: it fails and changes nothing, or it inserts the row of every
    -- message behind the largest offset and the largest sequence number.
    pub AllOrNothing :
        Time
        → Text
        → List (Message Payload)
        → Tables Payload
        → Result (Unit {0}) × Tables Payload
        → Type 0
    AllOrNothing now ns msgs t out =
        ((e : Error) × (out ≡ (err e, t)))
        ⊎ ((offset : ℤ) × ((seq : ℤ) × ((next_offset ns t ≡ ok offset)
                × ((next_seq ns t ≡ ok seq)
                    × (out ≡ (ok tt, with_rows t (new_rows now ns offset seq msgs)))))))
