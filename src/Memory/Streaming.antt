-- ===== src/Memory/Streaming.antt =====
-- What a stream of events delivers (internal/memory/memory.go).
use mathlib.Core.List.{append_assoc, append-nil, map-append}
use hearsay.Base.{
  ℕ, zero, suc, ◌+◌, ◌≤◌, ◌≡◌, refl, sym, ap, ◌∙◌, Bool, true, false, List, [], ◌∷◌, ◌++◌, Option,
  none, map, drop, length, length-append, arith, if◌then◌else◌,
}
use hearsay.Base.Int.{ℤ, pos, leb_ℤ}
use hearsay.Provider.{Message}
use hearsay.Memory.Events.{event_of, Stream, push, replay, poll, run_polls, subscribe_events}
use hearsay.Memory.Numbering.{IsNumbered}

seq_old : (o s : ℤ) (j n : ℕ) → o ≡ pos (suc j) → s ≡ pos n → suc j ≤ n → leb_ℤ o s ≡ true
seq_old o s j n e f h = rw (e, f) (ground arith)

seq_new : (o s : ℤ) (j n : ℕ) → o ≡ pos (suc j) → s ≡ pos n → n ≤ j → leb_ℤ o s ≡ false
seq_new o s j n e f h = rw (e, f) (ground arith)

pub if_true : {A : Type 0} (t : Bool) (x y : A) → t ≡ true → (if t then x else y) ≡ x
if_true t x y h = rw h

shift : (j l : ℕ) → j + suc l ≡ suc j + l
shift j l = omega arith

module _ {Payload : Type 0} where
  -- `st` went on to `st'` by sending `msgs`, and stands at offset `n`.
  pub record Sent (msgs : List (Message Payload)) (n : ℕ) (st st' : Stream Payload) : Type 0 where
    pub since : st'.since ≡ pos n
    pub sent : st'.sent ≡ st.sent ++ map event_of msgs
    pub live : st'.live ≡ st.live

  Sent-nil : (n : ℕ) (st : Stream Payload) → st.since ≡ pos n → Sent [] n st st
  Sent-nil n st e = record { since = e; sent = sym (append-nil st.sent); live = refl }

  Sent-push :
      (m : Message Payload) (msgs : List (Message Payload)) (n : ℕ) (st st' : Stream Payload)
      → Sent msgs n (push m st) st'
      → Sent (m ∷ msgs) n st st'
  Sent-push m msgs n st st' h = record {
    since = h.since;
    sent = h.sent ∙ append_assoc st.sent (event_of m ∷ []) (map event_of msgs);
    live = h.live;
  }

  at_end : (j : ℕ) (st : Stream Payload) → st.since ≡ pos j → st.since ≡ pos (j + 0)
  at_end j st e = e ∙ ap pos (omega arith)

  poll-Sent :
      (d j n : ℕ) (msgs : List (Message Payload)) (st : Stream Payload)
      → n ≡ j + d
      → d ≤ length msgs
      → st.since ≡ pos n
      → IsNumbered j msgs
      → Sent (drop d msgs) (j + length msgs) st (poll none msgs st)
  unfolding poll
  poll-Sent zero j n [] st e le s h = Sent-nil (j + 0) st (s ∙ ap pos (omega arith))
  poll-Sent (suc d) j n [] st e le s h = absurd (omega arith)
  poll-Sent zero j n (m ∷ msgs) st e le s h =
      rw (seq_new m.offset st.since j n h.0 s (omega arith)) (
        Sent-push m msgs (j + suc (length msgs)) st (poll none msgs (push m st)) (
          rw (shift j (length msgs))
            (poll-Sent zero (suc j) (suc j) msgs (push m st) (omega arith) (omega arith) h.0 h.1)))
  poll-Sent (suc d) j n (m ∷ msgs) st e le s h =
      rw (seq_old m.offset st.since j n h.0 s (omega arith)) (
        rw (shift j (length msgs))
          (poll-Sent d (suc j) n msgs st (omega arith) (omega arith) s h.1))

  replay-Sent_new :
      (k j : ℕ) (msgs : List (Message Payload)) (st : Stream Payload)
      → k ≤ j
      → st.since ≡ pos j
      → IsNumbered j msgs
      → Sent msgs (j + length msgs) st (replay (pos k) none msgs st)
  unfolding replay
  replay-Sent_new k j [] st le s h = Sent-nil (j + 0) st (at_end j st s)
  replay-Sent_new k j (m ∷ msgs) st le s h = rw (seq_new m.offset (pos k) j k h.0 refl le) (
      Sent-push m msgs (j + suc (length msgs)) st (replay (pos k) none msgs (push m st)) (
        rw (shift j (length msgs))
          (replay-Sent_new k (suc j) msgs (push m st) (omega arith) h.0 h.1)))

  replay-Sent :
      (d k j : ℕ) (msgs : List (Message Payload)) (st : Stream Payload)
      → k ≡ j + d
      → d ≤ length msgs
      → st.since ≡ pos k
      → IsNumbered j msgs
      → Sent (drop d msgs) (j + length msgs) st (replay (pos k) none msgs st)
  unfolding replay
  replay-Sent zero k j msgs st e le s h =
      replay-Sent_new k j msgs st (omega arith) (s ∙ ap pos (omega arith)) h
  replay-Sent (suc d) k j [] st e le s h = absurd (omega arith)
  replay-Sent (suc d) k j (m ∷ msgs) st e le s h =
      rw (seq_old m.offset (pos k) j k h.0 refl (omega arith)) (
        rw (shift j (length msgs))
          (replay-Sent d k (suc j) msgs st (omega arith) (omega arith) s h.1))

  abbrev pub concat : List (List (Message Payload)) → List (Message Payload)
  concat [] = []
  concat (b ∷ batches) = b ++ concat batches

  -- The rounds of a stream that stays alive, over a log that grows by one batch before each.
  abbrev pub rounds_of :
      List (Message Payload)
      → List (List (Message Payload))
      → List (Option ℕ × List (Message Payload))
  rounds_of log [] = []
  rounds_of log (b ∷ batches) = (none, log ++ b) ∷ rounds_of (log ++ b) batches

  IsNumbered-prefix :
      (k : ℕ) (xs ys : List (Message Payload)) → IsNumbered k (xs ++ ys) → IsNumbered k xs
  IsNumbered-prefix k [] ys h = tt
  IsNumbered-prefix k (x ∷ xs) ys h = (h.0, IsNumbered-prefix (suc k) xs ys h.1)

  pub drop-append :
      (k : ℕ) (xs ys : List (Message Payload)) → k ≤ length xs → drop k (xs ++ ys) ≡ drop k xs ++ ys
  drop-append zero xs ys h = refl
  drop-append (suc k) [] ys h = absurd (omega arith)
  drop-append (suc k) (x ∷ xs) ys h = drop-append k xs ys (omega arith)

  drop-length : (xs : List (Message Payload)) → drop (length xs) xs ≡ []
  drop-length [] = refl
  drop-length (x ∷ xs) = drop-length xs

  pub drop_old : (xs ys : List (Message Payload)) → drop (length xs) (xs ++ ys) ≡ ys
  drop_old xs ys =
      drop-append (length xs) xs ys (omega arith)
      ∙ ap (λ (l : List (Message Payload)). l ++ ys) (drop-length xs)

  poll-batch :
      (log b : List (Message Payload)) (st : Stream Payload)
      → st.since ≡ pos (length log)
      → IsNumbered 0 (log ++ b)
      → Sent b (length (log ++ b)) st (poll none (log ++ b) st)
  poll-batch log b st s h =
      let moved =
        poll-Sent (length log) 0 (length log) (log ++ b) st (omega arith)
          (omega (arith, length-append log b)) s h in
      record {
        since = moved.since ∙ ap pos (omega arith);
        sent = moved.sent ∙ ap (λ msgs. st.sent ++ map event_of msgs) (drop_old log b);
        live = moved.live;
      }

  run_polls-sent :
      (log : List (Message Payload)) (batches : List (List (Message Payload))) (st : Stream Payload)
      → st.since ≡ pos (length log)
      → st.live ≡ true
      → IsNumbered 0 (log ++ concat batches)
      → (run_polls (rounds_of log batches) st).sent ≡ st.sent ++ map event_of (concat batches)
  unfolding run_polls
  run_polls-sent log [] st s l h = sym (append-nil st.sent)
  run_polls-sent log (b ∷ batches) st s l h =
      let whole : IsNumbered 0 ((log ++ b) ++ concat batches) =
        rw (append_assoc log b (concat batches)) h in
      let moved = poll-batch log b st s (IsNumbered-prefix 0 (log ++ b) (concat batches) whole) in
      ap (λ (st' : Stream Payload). (run_polls (rounds_of (log ++ b) batches) st').sent)
        (if_true st.live (poll none (log ++ b) st) st l)
      ∙ (run_polls-sent (log ++ b) batches (poll none (log ++ b) st) moved.since (moved.live ∙ l)
            whole
          ∙ rw
              (
                moved.sent,
                map-append,
                append_assoc st.sent (map event_of b) (map event_of (concat batches)),
              )
              refl)

  -- A stream that is not cancelled, opened from sequence number `k` of a log numbered from 1, has
  -- sent each message behind the first `k` exactly once and in order: those that stood in the log,
  -- and those of every batch appended before a round. From 0 it replays the whole log.
  pub stream_exact :
      (k : ℕ) (log : List (Message Payload)) (batches : List (List (Message Payload)))
      → k ≤ length log
      → IsNumbered 0 (log ++ concat batches)
      → (subscribe_events (pos k) none log (rounds_of log batches)).sent
        ≡ map event_of (drop k (log ++ concat batches))
  unfolding subscribe_events
  stream_exact k log batches le h =
      let start : Stream Payload = record { since = pos k; sent = []; live = true } in
      let moved =
        replay-Sent k k 0 log start (omega arith) le refl
          (IsNumbered-prefix 0 log (concat batches) h) in
      run_polls-sent log batches (replay (pos k) none log start)
        (moved.since ∙ ap pos (omega arith)) moved.live h
      ∙ rw (moved.sent, drop-append k log (concat batches) le, map-append) refl
