-- ===== src/Sqlite/Expiring.antt =====
-- What `ReleaseExpired` of the SQLite provider does to the offsets (internal/sqlite/sqlite.go).
use mathlib.Core.List.{append-nil}
use hearsay.Base.{
  ℕ, zero, suc, ◌+◌, ◌<◌, ◌≤◌, ◌≡◌, refl, sym, ap, ◌∙◌, Bool, true, false, not, ◌&&◌, List, [], ◌∷◌,
  ◌++◌, some, All, map, filter, filter-append, filter-All, length, length-append, drop, arith,
  if◌then◌else◌, Bool-cases, inl, inr,
}
use hearsay.Base.Int.{ℤ, pos, two63, eq_ℤ, Time, is_zero}
use hearsay.Base.Text.{Text}
use hearsay.Provider.{Message, Json, Result, ok}
use hearsay.Memory.{Provider}
use hearsay.Memory.Log as Memory_log
use hearsay.Memory.Numbering.{IsNumbered, stamp, length-stamp, append-WellNumbered}
use hearsay.Memory.Queries.{from_cursor, query-cursor}
use hearsay.Sql.{delete_where}
use hearsay.Sqlite.{Row, Tables}
use hearsay.Sqlite.Log.{
  is_in, rows_in, new_row, message_of, append, query, expired_offsets, delete_offsets,
  release_expired,
}
use hearsay.Sqlite.Refining.{Holds, rows_in-with_rows}
use hearsay.Sqlite.Appending.{new_rows}
use hearsay.Sqlite.Simulation.{append-Holds, append-rows, length-map}
use hearsay.Sqlite.Reading.{query-Holds}

drop_all : {A : Type 0} (n : ℕ) (xs : List A) → length xs ≤ n → drop n xs ≡ []
drop_all zero [] h = refl
drop_all (suc n) [] h = refl
drop_all zero (x ∷ xs) h = absurd (omega arith)
drop_all (suc n) (x ∷ xs) h = drop_all n xs (omega arith)

-- Two columns that agree on a table agree on its first rows.
map-prefix :
    {A B : Type 0} (f g : A → B) (xs ys : List A)
    → map f (xs ++ ys) ≡ map g (xs ++ ys)
    → map f xs ≡ map g xs
map-prefix f g [] ys h = refl
map-prefix {B = B} f g (x ∷ xs) ys h =
    let both : f x ∷ map f (xs ++ ys) ≡ g x ∷ map g (xs ++ ys) = h in
    let first : f x ≡ g x = cc in rw first (ap (λ (l : List B). g x ∷ l) (map-prefix f g xs ys cc))

eq_ℤ_refl : (o : ℤ) → eq_ℤ o o ≡ true
eq_ℤ_refl o = ground arith

module _ {Payload : Type 0} where
  -- A row stays if it has another offset or is in another namespace.
  abbrev stays : Text → ℤ → Row Payload → Bool
  stays ns o r = not (is_in ns r && eq_ℤ r.offset o)

  deleted_in :
      (ns : Text) (o : ℤ) (rows : List (Row Payload))
      → filter (is_in ns) (filter (stays ns o) rows)
        ≡ filter (λ (r : Row Payload). not (eq_ℤ r.offset o)) (filter (is_in ns) rows)
  deleted_in ns o [] = refl
  deleted_in ns o (r ∷ rows) = elim (Bool-cases (is_in ns r)) [
    | inr out ↦ rw (out, out) (deleted_in ns o rows)
    | inl here ↦ elim (Bool-cases (eq_ℤ r.offset o)) [
      | inl e ↦ rw (here, e) (deleted_in ns o rows)
      | inr e ↦ rw (here, e, here) (ap (λ (l : List (Row Payload)). r ∷ l) (deleted_in ns o rows))
    ]
  ]

  -- In a numbered log, the offset of the last row is that of no other.
  last_differs :
      (ns : Text) (k : ℕ) (rows : List (Row Payload)) (last : Row Payload)
      → IsNumbered k (map (message_of ns) (rows ++ (last ∷ [])))
      → (last.offset ≡ pos (suc (k + length rows)))
        × (All (λ (r : Row Payload). not (eq_ℤ r.offset last.offset) ≡ true) rows
            × IsNumbered k (map (message_of ns) rows))
  unfolding message_of
  last_differs ns k [] last h = (h.0 ∙ ap pos (omega arith), (tt, tt))
  last_differs ns k (r ∷ rows) last h =
      let (e, (others, numbered)) = last_differs ns (suc k) rows last h.1 in
      (e ∙ ap pos (omega arith), ((rw (e, h.0) (ground arith), others), (h.0, numbered)))

module _ {Payload : Type 0} (refuses : ℕ → Bool) (works : (n : ℕ) → refuses n ≡ false) where
  abbrev shrunk : Text → ℤ → Tables Payload → Tables Payload
  shrunk ns o t = record t { messages = filter (stays ns o) t.messages }

  -- An in-memory provider with the given log.
  abbrev with_log : List (Message Payload) → Provider Payload → Provider Payload
  with_log msgs p = record p { messages = λ _. msgs; offsets = λ _. pos (length msgs) }

  -- Of a numbered log, the last row alone goes.
  shrunk-kept :
      (ns : Text) (t : Tables Payload) (rows : List (Row Payload)) (last : Row Payload)
      → rows_in ns t ≡ rows ++ (last ∷ [])
      → All (λ (r : Row Payload). not (eq_ℤ r.offset last.offset) ≡ true) rows
      → rows_in ns (shrunk ns last.offset t) ≡ rows
  shrunk-kept ns t rows last split others =
      let other : Row Payload → Bool = λ r. not (eq_ℤ r.offset last.offset) in
      deleted_in ns last.offset t.messages
      ∙ (ap (filter other) split
          ∙ (filter-append other rows (last ∷ [])
              ∙ (ap (λ b. filter other rows ++ (if not b then last ∷ [] else []))
                    (eq_ℤ_refl last.offset)
                  ∙ (append-nil _ ∙ filter-All other rows others))))

  last_offset :
      (ns : Text) (t : Tables Payload) (p : Provider Payload) (rows : List (Row Payload))
      (last : Row Payload)
      → Holds ns t p
      → rows_in ns t ≡ rows ++ (last ∷ [])
      → (last.offset ≡ pos (suc (length rows)))
        × (All (λ (r : Row Payload). not (eq_ℤ r.offset last.offset) ≡ true) rows
            × IsNumbered 0 (map (message_of ns) rows))
  last_offset ns t p rows last h split =
      let (e, rest) =
        last_differs ns 0 rows last
          (rw (ap (map (message_of ns)) (sym split), h.log) h.numbered.numbered) in
      (e ∙ ap pos (omega arith), rest)

  shrunk-Holds :
      (ns : Text) (t : Tables Payload) (p : Provider Payload) (rows : List (Row Payload))
      (last : Row Payload)
      → Holds ns t p
      → rows_in ns t ≡ rows ++ (last ∷ [])
      → Holds ns (shrunk ns last.offset t) (with_log (map (message_of ns) rows) p)
  shrunk-Holds ns t p rows last h split =
      let (e, (others, numbered)) = last_offset ns t p rows last h split in
      let kept = shrunk-kept ns t rows last split others in
      record {
        log = ap (map (message_of ns)) kept;
        numbered = record { counter = refl; numbered = numbered };
        seqs = rw kept (
            map-prefix (λ (r : Row Payload). r.seq) (λ (r : Row Payload). some r.offset) rows
              (last ∷ []) (rw split at h.seqs));
      }

  -- The row of a message that is appended behind `rows`.
  abbrev pub row_at : Time → Text → ℤ → Message Payload → Row Payload
  row_at now ns o m = record {
    namespace = ns;
    offset = o;
    seq = some o;
    type = m.type;
    agent_id = m.agent_id;
    payload = m.payload;
    timestamp = now;
  }

  appended_rows :
      (now : Time) (ns : Text) (t : Tables Payload) (p : Provider Payload)
      (rows : List (Row Payload)) (last : Row Payload) (msg : Message Payload)
      → Holds ns t p
      → rows_in ns t ≡ rows ++ (last ∷ [])
      → is_zero msg.timestamp ≡ true
      → suc (suc (length rows)) < two63
      → rows_in ns (append refuses now ns (msg ∷ []) (shrunk ns last.offset t)).1
        ≡ rows ++ (row_at now ns last.offset msg ∷ [])
  unfolding new_rows new_row
  appended_rows now ns t p rows last msg h split zero_time room =
      let (e, (others, numbered)) = last_offset ns t p rows last h split in
      let kept = shrunk-kept ns t rows last split others in
      let p' = with_log (map (message_of ns) rows) p in
      let t' = shrunk ns last.offset t in
      let next : pos (suc (length (rows_in ns t'))) ≡ last.offset = rw (kept, e) refl in
      let o = pos (suc (length (rows_in ns t'))) in
      let added : rows_in ns (append refuses now ns (msg ∷ []) t').1
          ≡ rows_in ns t' ++ new_rows now ns o o (msg ∷ []) =
        ap (λ (out : Result (Unit {0}) × Tables Payload). rows_in ns out.1)
          (append-rows refuses works now ns (msg ∷ []) t' p' (shrunk-Holds ns t p rows last h split)
            (rw kept (omega arith)))
        ∙ rows_in-with_rows now ns o o (msg ∷ []) t' in
      added ∙ rw (next, kept, zero_time) refl

  -- Where the engine refuses nothing, and the tables hold a log of the in-memory provider whose last
  -- row is the only expired claim, `ReleaseExpired` deletes that row and keeps the others, and a
  -- message without a time of its own that is appended next is stored with the offset and the
  -- sequence number of the deleted row: a reader who had read the whole log, and asks for what
  -- stands behind it, does not find the message. An int64 has room for it.
  pub expired_offset_reused :
      (json : Json Payload) (before now : Time) (ns : Text) (t : Tables Payload)
      (p : Provider Payload) (rows : List (Row Payload)) (last : Row Payload)
      (msg : Message Payload)
      → Holds ns t p
      → rows_in ns t ≡ rows ++ (last ∷ [])
      → expired_offsets refuses json before (rows_in ns t) ≡ last.offset ∷ []
      → is_zero msg.timestamp ≡ true
      → suc (suc (length rows)) < two63
      → let released = release_expired refuses json ns before t in
        let appended = append refuses now ns (msg ∷ []) released.1 in
        (released.0 ≡ ok tt)
        × (rows_in ns released.1 ≡ rows)
        × (appended.0 ≡ ok tt)
        × (rows_in ns appended.1 ≡ rows ++ (row_at now ns last.offset msg ∷ []))
        × (query refuses ns (from_cursor (length (p.messages ns)) (pos 0)) appended.1 ≡ ok [])
  unfolding release_expired delete_offsets delete_where
  expired_offset_reused json before now ns t p rows last msg h split expired zero_time room =
      let p' = with_log (map (message_of ns) rows) p in
      let msgs = map (message_of ns) rows in
      let len : length msgs ≡ length rows = length-map (message_of ns) rows in
      let holds = shrunk-Holds ns t p rows last h split in
      let added =
        append-Holds refuses works now ns (msg ∷ []) (shrunk ns last.offset t) p' holds
          (zero_time, tt) (omega arith) in
      let memory = append-WellNumbered now ns (msg ∷ []) p' holds.numbered (omega arith) in
      let gone : release_expired refuses json ns before t ≡ (ok tt, shrunk ns last.offset t) =
        rw (works 0, expired, works 1) refl in
      let whole : length (p.messages ns) ≡ suc (length rows) =
        ap (λ (l : List (Message Payload)). length l) (sym h.log)
        ∙ (length-map (message_of ns) (rows_in ns t)
            ∙ (ap (λ (l : List (Row Payload)). length l) split
                ∙ (length-append rows (last ∷ []) ∙ omega arith))) in
      let all_read : length (p'.messages ns ++ stamp now ns (length msgs) (msg ∷ []))
          ≤ length (p.messages ns) =
        omega (
          arith,
          length-append msgs (stamp now ns (length msgs) (msg ∷ [])),
          length-stamp now ns (length msgs) (msg ∷ []),
        ) in
      rw gone (
        refl,
        shrunk-kept ns t rows last split (last_offset ns t p rows last h split).1.0,
        added.0,
        appended_rows now ns t p rows last msg h split zero_time room,
        query-Holds refuses ns (from_cursor (length (p.messages ns)) (pos 0))
              (append refuses now ns (msg ∷ []) (shrunk ns last.offset t)).1
              (Memory_log.append now ns (msg ∷ []) p').1 (works 0) added.1
            ∙ (query-cursor ns (length (p.messages ns)) (pos 0)
                  (Memory_log.append now ns (msg ∷ []) p').1 added.1.numbered
                ∙ ap ok (
                    ap (drop (length (p.messages ns))) memory.0
                    ∙ drop_all (length (p.messages ns))
                        (p'.messages ns ++ stamp now ns (length msgs) (msg ∷ [])) all_read)),
      )
