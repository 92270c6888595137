-- ===== src/Sqlite/Refining.antt =====
-- The SQLite log against the in-memory one (internal/sqlite/sqlite.go, internal/memory/memory.go).
use hearsay.Base.{
  ℕ, suc, ◌+◌, ◌<◌, ◌≤◌, ◌≡◌, refl, ap, ◌∙◌, true, false, List, [], ◌∷◌, ◌++◌, Option, some, All,
  any, map, filter, filter-append, filter-All, length, arith, Bool-cases, inl, inr,
}
use hearsay.Base.Int.{ℤ, pos, ◌+ℤ◌, wrap64, wrap64-pos, two63, eq_ℤ, ltb_ℤ, Time, is_zero}
use hearsay.Base.Text.{Text, text_eq_refl}
use hearsay.Provider.{Message, ok}
use hearsay.Memory.{Provider}
use hearsay.Memory.Numbering.{IsNumbered, WellNumbered, stamp}
use hearsay.Sql.{max_of, next_of}
use hearsay.Sqlite.{Row, Tables}
use hearsay.Sqlite.Log.{is_in, rows_in, same_key, new_row, message_of}
use hearsay.Sqlite.Appending.{new_rows, with_rows}

pub next_pos : (j : ℕ) → suc (suc j) < two63 → wrap64 (pos (suc j) +ℤ pos 1) ≡ pos (suc (suc j))
unfolding ◌+ℤ◌
next_pos j h = ap wrap64 (ground arith) ∙ wrap64-pos (suc (suc j)) h

differ_below : (o : ℤ) (k n : ℕ) → o ≡ pos (suc k) → k < n → eq_ℤ (pos (suc n)) o ≡ false
differ_below o k n e h = rw e (ground arith)

grows_by : (k : ℕ) → ltb_ℤ (pos k) (pos (suc k)) ≡ true
grows_by k = ground arith

next_below : (n : ℕ) → suc n < two63 → ltb_ℤ (pos n +ℤ pos 1) (pos two63) ≡ true
unfolding ◌+ℤ◌
next_below n h = ground arith

sum_pos : (n : ℕ) → pos n +ℤ pos 1 ≡ pos (suc n)
unfolding ◌+ℤ◌
sum_pos n = ground arith

abbrev pub AreNumbers : (k : ℕ) (os : List (Option ℤ)) → Type 0
AreNumbers k [] = Unit {0}
AreNumbers k (o ∷ os) = (o ≡ some (pos (suc k))) × AreNumbers (suc k) os

max_of-from :
    (k : ℕ) (os : List (Option ℤ))
    → AreNumbers k os
    → max_of (some (pos k)) os ≡ some (pos (k + length os))
unfolding max_of
max_of-from k [] h = ap (λ n. some (pos n)) (omega arith)
max_of-from k (o ∷ os) h =
    rw (h.0, grows_by k) (max_of-from (suc k) os h.1 ∙ ap (λ n. some (pos n)) (omega arith))

-- The largest of the numbers 1, 2, … is their count, and the next is one more.
pub next_of-AreNumbers :
    (os : List (Option ℤ))
    → AreNumbers 0 os
    → suc (length os) < two63
    → next_of os ≡ ok (pos (suc (length os)))
unfolding next_of max_of
next_of-AreNumbers [] h r = rw (sum_pos 0) refl
next_of-AreNumbers (o ∷ os) h r =
    rw
      (h.0, max_of-from 1 os h.1, next_below (1 + length os) (omega arith), sum_pos (1 + length os))
      (ap (λ n. ok (pos n)) (omega arith))

module _ {Payload : Type 0} where
  -- The log of a namespace, as its rows in the order of their insertion.
  abbrev pub log_of : Text → Tables Payload → List (Message Payload)
  log_of ns t = map (message_of ns) (rows_in ns t)

  -- The tables hold, for the namespace, the log of the in-memory provider, numbered from 1, with
  -- the sequence numbers of the events equal to the offsets.
  pub record Holds (ns : Text) (t : Tables Payload) (p : Provider Payload) : Type 0 where
    pub log : log_of ns t ≡ p.messages ns
    pub numbered : WellNumbered ns p
    pub seqs :
        map (λ (r : Row Payload). r.seq) (rows_in ns t)
        ≡ map (λ (r : Row Payload). some r.offset) (rows_in ns t)

  pub offsets-AreNumbers :
      (ns : Text) (k : ℕ) (rows : List (Row Payload))
      → IsNumbered k (map (message_of ns) rows)
      → AreNumbers k (map (λ (r : Row Payload). some r.offset) rows)
  unfolding message_of
  offsets-AreNumbers ns k [] h = tt
  offsets-AreNumbers ns k (r ∷ rows) h = (ap some h.0, offsets-AreNumbers ns (suc k) rows h.1)

  -- No row of a numbered log has the key of the next row.
  pub key_free :
      (r : Row Payload) (k n : ℕ) (rows : List (Row Payload))
      → r.offset ≡ pos (suc n)
      → IsNumbered k (map (message_of r.namespace) (filter (is_in r.namespace) rows))
      → k + length (filter (is_in r.namespace) rows) ≤ n
      → any (same_key r) rows ≡ false
  unfolding message_of
  key_free r k n [] e h le = refl
  key_free r k n (x ∷ rows) e h le = elim (Bool-cases (is_in r.namespace x)) [
    | inr out ↦ rw out (key_free r k n rows e (rw out at h) (rw out at le))
    | inl here ↦
        let h' : (x.offset ≡ pos (suc k))
            × IsNumbered (suc k) (map (message_of r.namespace) (filter (is_in r.namespace) rows)) =
          rw here at h in
        let le' : k + suc (length (filter (is_in r.namespace) rows)) ≤ n = rw here at le in
        let other : eq_ℤ r.offset x.offset ≡ false =
          rw e (differ_below x.offset k n h'.0 (omega arith)) in
        rw (here, other) (key_free r (suc k) n rows e h'.1 (omega arith))
  ]

  -- The rows of a batch are rows of the namespace, and read as the messages that the in-memory
  -- provider stamps.
  new_rows-is_in :
      (now : Time) (ns : Text) (offset seq : ℤ) (msgs : List (Message Payload))
      → All (λ r. is_in ns r ≡ true) (new_rows now ns offset seq msgs)
  unfolding new_rows new_row
  new_rows-is_in now ns offset seq [] = tt
  new_rows-is_in now ns offset seq (m ∷ msgs) = (
    text_eq_refl ns,
    new_rows-is_in now ns (wrap64 (offset +ℤ pos 1)) (wrap64 (seq +ℤ pos 1)) msgs,
  )

  pub new_rows-stamp :
      (now : Time) (ns : Text) (j : ℕ) (seq : ℤ) (msgs : List (Message Payload))
      → All (λ (m : Message Payload). is_zero m.timestamp ≡ true) msgs
      → suc (j + length msgs) < two63
      → map (message_of ns) (new_rows now ns (pos (suc j)) seq msgs) ≡ stamp now ns j msgs
  unfolding new_rows new_row message_of stamp
  new_rows-stamp now ns j seq [] z room = refl
  new_rows-stamp now ns j seq (m ∷ msgs) z room =
      rw (z.0, next_pos j (omega arith))
        (ap
          (λ (l : List (Message Payload)).
            record m { offset = pos (suc j); namespace = ns; timestamp = now } ∷ l)
          (new_rows-stamp now ns (suc j) (wrap64 (seq +ℤ pos 1)) msgs z.1 (omega arith)))

  pub new_rows-seqs :
      (now : Time) (ns : Text) (offset : ℤ) (msgs : List (Message Payload))
      → map (λ (r : Row Payload). r.seq) (new_rows now ns offset offset msgs)
        ≡ map (λ (r : Row Payload). some r.offset) (new_rows now ns offset offset msgs)
  unfolding new_rows new_row
  new_rows-seqs now ns offset [] = refl
  new_rows-seqs now ns offset (m ∷ msgs) =
      ap (λ (l : List (Option ℤ)). some offset ∷ l)
        (new_rows-seqs now ns (wrap64 (offset +ℤ pos 1)) msgs)

  pub rows_in-with_rows :
      (now : Time) (ns : Text) (offset seq : ℤ) (msgs : List (Message Payload)) (t : Tables Payload)
      → rows_in ns (with_rows t (new_rows now ns offset seq msgs))
        ≡ rows_in ns t ++ new_rows now ns offset seq msgs
  rows_in-with_rows now ns offset seq msgs t =
      filter-append (is_in ns) t.messages (new_rows now ns offset seq msgs)
      ∙ ap (λ (l : List (Row Payload)). rows_in ns t ++ l)
          (filter-All (is_in ns) (new_rows now ns offset seq msgs)
            (new_rows-is_in now ns offset seq msgs))
