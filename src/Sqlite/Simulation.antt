-- ===== src/Sqlite/Simulation.antt =====
-- Appends and queries of the SQLite provider do what those of the in-memory provider do
-- (internal/sqlite/sqlite.go, internal/memory/memory.go).
use mathlib.Core.List.{append_assoc, append-nil, map-append}
use hearsay.Base.{
  ℕ, suc, ◌+◌, ◌<◌, ◌≡◌, refl, sym, ap, ◌∙◌, Bool, true, false, List, [], ◌∷◌, ◌++◌, some, All, any,
  map, length, length-append, arith,
}
use hearsay.Base.Int.{ℤ, pos, ◌+ℤ◌, wrap64, two63, Time, is_zero}
use hearsay.Base.Text.{Text}
use hearsay.Provider.{Message, ok}
use hearsay.Memory.{Provider}
use hearsay.Memory.Log as Memory_log
use hearsay.Memory.Numbering.{IsNumbered, IsNumbered-append, stamp, append-WellNumbered}
use hearsay.Sql.{in_tx, insert_row, settle, next_of}
use hearsay.Sqlite.{Row, Tables}
use hearsay.Sqlite.Log.{
  rows_in, same_key, new_row, insert_all, next_offset, next_seq, append, message_of,
}
use hearsay.Sqlite.Appending.{new_rows, with_rows}
use hearsay.Sqlite.Refining.{
  next_pos, next_of-AreNumbers, log_of, Holds, offsets-AreNumbers, key_free, new_rows-stamp,
  new_rows-seqs, rows_in-with_rows,
}

pub length-map : {A B : Type 0} (f : A → B) (xs : List A) → length (map f xs) ≡ length xs
length-map f [] = refl
length-map f (x ∷ xs) = ap suc (length-map f xs)

module _ {Payload : Type 0} where
  IsNumbered-more :
      (now : Time) (ns : Text) (j : ℕ) (seq : ℤ) (m : Message Payload) (t : Tables Payload)
      → IsNumbered 0 (log_of ns t)
      → length (rows_in ns t) ≡ j
      → IsNumbered 0 (log_of ns (with_rows t (new_row now ns (pos (suc j)) seq m ∷ [])))
        × (length (rows_in ns (with_rows t (new_row now ns (pos (suc j)) seq m ∷ []))) ≡ suc j)
  unfolding new_rows new_row message_of
  IsNumbered-more now ns j seq m t h e =
      let r = new_row now ns (pos (suc j)) seq m in
      let rows : rows_in ns (with_rows t (r ∷ [])) ≡ rows_in ns t ++ (r ∷ []) =
        rows_in-with_rows now ns (pos (suc j)) seq (m ∷ []) t in
      let len : length (log_of ns t) ≡ j = length-map (message_of ns) (rows_in ns t) ∙ e in
      (
        rw (rows, map-append)
            (IsNumbered-append 0 j (log_of ns t) (message_of ns r ∷ []) (omega arith) h (refl, tt)),
        ap (λ (l : List (Row Payload)). length l) rows
            ∙ (length-append (rows_in ns t) (r ∷ []) ∙ omega arith),
      )

  next_free :
      (now : Time) (ns : Text) (j : ℕ) (seq : ℤ) (m : Message Payload) (t : Tables Payload)
      → IsNumbered 0 (log_of ns t)
      → length (rows_in ns t) ≡ j
      → any (same_key (new_row now ns (pos (suc j)) seq m)) t.messages ≡ false
  unfolding new_row
  next_free now ns j seq m t h e =
      key_free (new_row now ns (pos (suc j)) seq m) 0 j t.messages refl h (omega arith)

module _ {Payload : Type 0} (refuses : ℕ → Bool) (works : (n : ℕ) → refuses n ≡ false) where
  insert_all-free :
      (now : Time) (ns : Text) (n j : ℕ) (seq : ℤ) (msgs : List (Message Payload))
      (t : Tables Payload)
      → IsNumbered 0 (log_of ns t)
      → length (rows_in ns t) ≡ j
      → suc (j + length msgs) < two63
      → (n' : ℕ) × (insert_all refuses now ns n (pos (suc j)) seq msgs t
          ≡ (ok n', with_rows t (new_rows now ns (pos (suc j)) seq msgs)))
  unfolding insert_all insert_row new_rows
  insert_all-free now ns n j seq [] t h e room = (
    n,
    ap (λ (rows : List (Row Payload)). (ok n, record t { messages = rows }))
        (sym (append-nil t.messages)),
  )
  insert_all-free now ns n j seq (m ∷ msgs) t h e room =
      let r = new_row now ns (pos (suc j)) seq m in
      let free : any (same_key r) t.messages ≡ false = next_free now ns j seq m t h e in
      let more = IsNumbered-more now ns j seq m t h e in
      let (n', q) =
        insert_all-free now ns (suc n) (suc j) (wrap64 (seq +ℤ pos 1)) msgs (with_rows t (r ∷ []))
          more.0 more.1 (omega arith) in
      (
        n',
        rw (works n, free, next_pos j (omega arith))
            (q
              ∙ ap (λ (rows : List (Row Payload)). (ok n', record t { messages = rows }))
                  (append_assoc t.messages (r ∷ [])
                    (new_rows now ns (pos (suc (suc j))) (wrap64 (seq +ℤ pos 1)) msgs))),
      )

  next_offset-Holds :
      (ns : Text) (t : Tables Payload) (p : Provider Payload)
      → Holds ns t p
      → suc (length (rows_in ns t)) < two63
      → next_offset ns t ≡ ok (pos (suc (length (rows_in ns t))))
  next_offset-Holds ns t p h room =
      let os = map (λ (r : Row Payload). some r.offset) (rows_in ns t) in
      let len : length os ≡ length (rows_in ns t) =
        length-map (λ (r : Row Payload). some r.offset) (rows_in ns t) in
      next_of-AreNumbers os (offsets-AreNumbers ns 0 (rows_in ns t) (rw h.log h.numbered.numbered))
        (omega arith)
      ∙ ap (λ n. ok (pos (suc n))) len

  pub append-rows :
      (now : Time) (ns : Text) (msgs : List (Message Payload)) (t : Tables Payload)
      (p : Provider Payload)
      → Holds ns t p
      → suc (length (rows_in ns t) + length msgs) < two63
      → let next = pos (suc (length (rows_in ns t))) in
        append refuses now ns msgs t ≡ (ok tt, with_rows t (new_rows now ns next next msgs))
  unfolding append in_tx
  append-rows now ns msgs t p h room =
      let j = length (rows_in ns t) in
      let o = next_offset-Holds ns t p h (omega arith) in
      let s : next_seq ns t ≡ ok (pos (suc j)) = ap next_of h.seqs ∙ o in
      let (n', q) =
        insert_all-free now ns 4 j (pos (suc j)) msgs t (rw h.log h.numbered.numbered) refl
          (omega arith) in
      rw (works 0, works 1, o, works 2, s, works 3) (ap (settle refuses t) q ∙ rw (works n') refl)

  -- Where the engine refuses nothing, and the tables hold the log of the in-memory provider, an
  -- append of messages without a time of their own succeeds, and the tables hold the log that the
  -- in-memory provider has after its append, while an int64 has room.
  pub append-Holds :
      (now : Time) (ns : Text) (msgs : List (Message Payload)) (t : Tables Payload)
      (p : Provider Payload)
      → Holds ns t p
      → All (λ (m : Message Payload). is_zero m.timestamp ≡ true) msgs
      → suc (length (p.messages ns) + length msgs) < two63
      → ((append refuses now ns msgs t).0 ≡ ok tt)
        × Holds ns (append refuses now ns msgs t).1 (Memory_log.append now ns msgs p).1
  append-Holds now ns msgs t p h z room =
      let j = length (rows_in ns t) in
      let len : j ≡ length (p.messages ns) =
        sym (length-map (message_of ns) (rows_in ns t))
        ∙ ap (λ (l : List (Message Payload)). length l) h.log in
      let new = new_rows now ns (pos (suc j)) (pos (suc j)) msgs in
      let rows : rows_in ns (with_rows t new) ≡ rows_in ns t ++ new =
        rows_in-with_rows now ns (pos (suc j)) (pos (suc j)) msgs t in
      let memory = append-WellNumbered now ns msgs p h.numbered (omega arith) in
      let stamped : map (message_of ns) new ≡ stamp now ns (length (p.messages ns)) msgs =
        new_rows-stamp now ns j (pos (suc j)) msgs z (omega arith)
        ∙ ap (λ n. stamp now ns n msgs) len in
      rw (append-rows now ns msgs t p h (omega arith)) (
        refl,
        record {
          log = rw (rows, map-append, h.log, stamped) (sym memory.0);
          numbered = memory.1;
          seqs =
              rw (rows, map-append, map-append, h.seqs, new_rows-seqs now ns (pos (suc j)) msgs)
                refl;
        },
      )
