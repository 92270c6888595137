-- ===== src/Memory/Following.antt =====
-- What a subscription receives (internal/memory/memory.go).
use mathlib.Core.List.{append_assoc, append-nil}
use hearsay.Base.{
  ℕ, zero, suc, ◌+◌, ◌≤◌, ◌≡◌, refl, sym, ap, ◌∙◌, true, List, [], ◌∷◌, ◌++◌, Option, none, drop,
  length, length-append, arith,
}
use hearsay.Base.Int.{ℤ, pos}
use hearsay.Base.Text.{Text}
use hearsay.Provider.{Message}
use hearsay.Memory.{Provider}
use hearsay.Memory.Log.{query}
use hearsay.Memory.Numbering.{IsNumbered, WellNumbered}
use hearsay.Memory.Queries.{query-cursor}
use hearsay.Memory.Streaming.{drop-append, drop_old, if_true}
use hearsay.Memory.Subscribe.{
  Subscription, since_offset, hand_over, deliver, found, round, run_rounds, subscribe,
}

unshifted : (n j : ℕ) → n ≡ 0 + j → n ≡ j
unshifted n j q = omega arith

module _ {Payload : Type 0} where
  IsNumbered-drop :
      (d j n : ℕ) (msgs : List (Message Payload))
      → n ≡ d + j
      → IsNumbered j msgs
      → IsNumbered n (drop d msgs)
  IsNumbered-drop zero j n msgs q h = rw (unshifted n j q) h
  IsNumbered-drop (suc d) j n [] q h = tt
  IsNumbered-drop (suc d) j n (m ∷ msgs) q h = IsNumbered-drop d (suc j) n msgs (omega arith) h.1

  length-drop :
      (d : ℕ) (msgs : List (Message Payload))
      → d ≤ length msgs
      → d + length (drop d msgs) ≡ length msgs
  length-drop zero msgs h = omega arith
  length-drop (suc d) [] h = absurd (omega arith)
  length-drop (suc d) (m ∷ msgs) h = omega (arith, length-drop d msgs (omega arith))

  -- `st` went on to `st'` by receiving `msgs`, and asks from offset `n`.
  record Received (msgs : List (Message Payload)) (n : ℕ) (st st' : Subscription Payload)
      : Type 0 where
    from : st'.from ≡ pos n
    received : st'.received ≡ st.received ++ msgs
    live : st'.live ≡ st.live

  deliver-Received :
      (j n : ℕ) (msgs : List (Message Payload)) (st : Subscription Payload)
      → IsNumbered j msgs
      → st.from ≡ pos j
      → n ≡ j + length msgs
      → Received msgs n st (deliver none msgs st)
  unfolding deliver
  deliver-Received j n [] st h e q = record {
    from = e ∙ ap pos (omega arith);
    received = sym (append-nil st.received);
    live = refl;
  }
  deliver-Received j n (m ∷ msgs) st h e q =
      let moved = deliver-Received (suc j) n msgs (hand_over m st) h.1 h.0 (omega arith) in
      record {
        from = moved.from;
        received = moved.received ∙ append_assoc st.received (m ∷ []) msgs;
        live = moved.live;
      }

  -- The subscription has received what stands behind the first `k` messages of the log, and asks
  -- from its end.
  record Synced (k : ℕ) (log : List (Message Payload)) (st : Subscription Payload) : Type 0 where
    from : st.from ≡ pos (length log)
    received : st.received ≡ drop k log
    live : st.live ≡ true

  found_from :
      (ns : Text) (j : ℕ) (from : ℤ) (p : Provider Payload)
      → WellNumbered ns p
      → from ≡ pos j
      → found (query ns (since_offset from) p) ≡ drop j (p.messages ns)
  found_from ns j from p w e = rw e (ap found (query-cursor ns j (pos 0) p w))

  round-Synced :
      (ns : Text) (k j : ℕ) (p : Provider Payload) (st : Subscription Payload)
      → WellNumbered ns p
      → st.from ≡ pos j
      → j ≤ length (p.messages ns)
      → st.live ≡ true
      → st.received ++ drop j (p.messages ns) ≡ drop k (p.messages ns)
      → Synced k (p.messages ns) (round ns none p st)
  unfolding round
  round-Synced ns k j p st w e le l r =
      let log = p.messages ns in
      let moved =
        deliver-Received j (length log) (drop j log) st
          (IsNumbered-drop j 0 j log (omega arith) w.numbered) e
          (omega (arith, length-drop j log le)) in
      rw (found_from ns j st.from p w e)
        (record { from = moved.from; received = moved.received ∙ r; live = moved.live ∙ l })

  -- The log of the namespace, numbered from 1, grows from each state to the next.
  abbrev pub Growing : Text → List (Message Payload) → List (Provider Payload) → Type 0
  Growing ns log [] = Unit {0}
  Growing ns log (p ∷ ps) =
      (b : List (Message Payload)) × ((p.messages ns ≡ log ++ b)
        × (WellNumbered ns p × Growing ns (p.messages ns) ps))

  abbrev pub last_log :
      Text → List (Message Payload) → List (Provider Payload) → List (Message Payload)
  last_log ns log [] = log
  last_log ns log (p ∷ ps) = last_log ns (p.messages ns) ps

  abbrev pub uncancelled : List (Provider Payload) → List (Option ℕ × Provider Payload)
  uncancelled [] = []
  uncancelled (p ∷ ps) = (none, p) ∷ uncancelled ps

  next-Synced :
      (ns : Text) (k : ℕ) (log b : List (Message Payload)) (p : Provider Payload)
      (st : Subscription Payload)
      → k ≤ length log
      → p.messages ns ≡ log ++ b
      → WellNumbered ns p
      → Synced k log st
      → Synced k (p.messages ns) (round ns none p st)
  next-Synced ns k log b p st le e w s =
      round-Synced ns k (length log) p st w s.from (rw e (omega (arith, length-append log b)))
        s.live (rw (e, drop_old log b, s.received) (sym (drop-append k log b le)))

  run_rounds-received :
      (ns : Text) (k : ℕ) (log : List (Message Payload)) (ps : List (Provider Payload))
      (st : Subscription Payload)
      → k ≤ length log
      → Growing ns log ps
      → Synced k log st
      → (run_rounds ns (uncancelled ps) st).received ≡ drop k (last_log ns log ps)
  unfolding run_rounds
  run_rounds-received ns k log [] st le g s = s.received
  run_rounds-received ns k log (p ∷ ps) st le (b, (e, (w, g))) s =
      ap (λ (st' : Subscription Payload). (run_rounds ns (uncancelled ps) st').received)
        (if_true st.live (round ns none p st) st s.live)
      ∙ run_rounds-received ns k (p.messages ns) ps (round ns none p st)
          (rw e (omega (arith, length-append log b))) g (next-Synced ns k log b p st le e w s)

  -- A subscription that is not cancelled, opened from offset `k` of a log numbered from 1, has
  -- received after each round exactly the messages behind the first `k`, each once and in order,
  -- also those that were appended between the rounds.
  pub subscribe_exact :
      (ns : Text) (k : ℕ) (p : Provider Payload) (ps : List (Provider Payload))
      → k ≤ length (p.messages ns)
      → WellNumbered ns p
      → Growing ns (p.messages ns) ps
      → (subscribe ns (pos k) (uncancelled (p ∷ ps))).received
        ≡ drop k (last_log ns (p.messages ns) ps)
  unfolding subscribe run_rounds
  subscribe_exact ns k p ps le w g =
      let start : Subscription Payload = record { from = pos k; received = []; live = true } in
      run_rounds-received ns k (p.messages ns) ps (round ns none p start) le g
        (round-Synced ns k k p start w refl le refl refl)
