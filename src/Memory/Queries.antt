-- ===== src/Memory/Queries.antt =====
-- What `Query` returns (internal/memory/memory.go).
use hearsay.Base.{
  ℕ, zero, suc, ◌+◌, ◌≤◌, ◌≡◌, refl, ap, ◌∙◌, Bool, true, false, not, ◌&&◌, List, [], ◌∷◌, filter,
  take, drop, arith, Bool-cases, inl, inr, leb,
}
use hearsay.Base.Int.{ℤ, pos, negsuc, leb_ℤ, ltb_ℤ}
use hearsay.Base.Text.{Text, text_eq}
use hearsay.Provider.{Message, QueryOpts, ok}
use hearsay.Memory.{Provider}
use hearsay.Memory.Log.{is_skipped, query_loop, query, all_messages}
use hearsay.Memory.Numbering.{IsNumbered, WellNumbered}

not-leb : (k j : ℕ) → k ≤ j → leb (suc j) k ≡ false
not-leb k j h = ground arith

leb_cursor : (k j d : ℕ) → k ≡ j + suc d → leb (suc j) k ≡ true
leb_cursor k j d h = ground arith

more_room :
    (limit : ℤ) (n l : ℕ)
    → limit ≡ pos (n + suc (suc l))
    → (ltb_ℤ (pos 0) limit && leb_ℤ limit (pos (suc n))) ≡ false
more_room limit n l e = rw e (ground arith)

abbrev pub from_cursor : ℕ → ℤ → QueryOpts
from_cursor k limit = record { since = pos k; types = []; agent_id = []; limit = limit }

module _ {Payload : Type 0} where
  abbrev kept : QueryOpts → Message Payload → Bool
  kept opts m = not (is_skipped opts m)

  -- A limit that is not positive is none.
  abbrev pub limited : ℤ → List (Message Payload) → List (Message Payload)
  limited (pos zero) msgs = msgs
  limited (pos (suc l)) msgs = take (suc l) msgs
  limited (negsuc l) msgs = msgs

  query_loop-limit :
      (opts : QueryOpts) (l n : ℕ) (msgs : List (Message Payload))
      → opts.limit ≡ pos (n + suc l)
      → query_loop opts n msgs ≡ take (suc l) (filter (kept opts) msgs)
  unfolding query_loop
  query_loop-limit opts l n [] e = refl
  query_loop-limit opts zero n (m ∷ msgs) e = elim (Bool-cases (is_skipped opts m)) [
    | inl s ↦ rw s (query_loop-limit opts zero n msgs e)
    | inr s ↦ rw (s, e) (ground arith)
  ]
  query_loop-limit opts (suc l) n (m ∷ msgs) e = elim (Bool-cases (is_skipped opts m)) [
    | inl s ↦ rw s (query_loop-limit opts (suc l) n msgs e)
    | inr s ↦
        rw (s, more_room opts.limit n l e)
          (ap (λ (r : List (Message Payload)). m ∷ r)
            (query_loop-limit opts l (suc n) msgs (e ∙ ap pos (omega arith))))
  ]

  query_loop-unlimited :
      (opts : QueryOpts) (n : ℕ) (msgs : List (Message Payload))
      → ltb_ℤ (pos 0) opts.limit ≡ false
      → query_loop opts n msgs ≡ filter (kept opts) msgs
  unfolding query_loop
  query_loop-unlimited opts n [] e = refl
  query_loop-unlimited opts n (m ∷ msgs) e = elim (Bool-cases (is_skipped opts m)) [
    | inl s ↦ rw s (query_loop-unlimited opts n msgs e)
    | inr s ↦
        rw (s, e)
          (ap (λ (r : List (Message Payload)). m ∷ r) (query_loop-unlimited opts (suc n) msgs e))
  ]

  by_limit :
      (opts : QueryOpts) (msgs : List (Message Payload)) (limit : ℤ)
      → opts.limit ≡ limit
      → query_loop opts 0 msgs ≡ limited limit (filter (kept opts) msgs)
  by_limit opts msgs (pos zero) e = query_loop-unlimited opts 0 msgs (rw e refl)
  by_limit opts msgs (pos (suc l)) e = query_loop-limit opts l 0 msgs (e ∙ ap pos (omega arith))
  by_limit opts msgs (negsuc l) e = query_loop-unlimited opts 0 msgs (rw e (ground arith))

  -- A query returns, in order, the messages that none of its three tests skips, and of these the
  -- first `limit` if the limit is positive.
  pub query-filter :
      (ns : Text) (opts : QueryOpts) (p : Provider Payload)
      → query ns opts p
        ≡ ok (limited opts.limit (filter (λ m. not (is_skipped opts m)) (p.messages ns)))
  unfolding query
  query-filter ns opts p = ap ok (by_limit opts (p.messages ns) opts.limit refl)

  skipped_by_cursor :
      (k j : ℕ) (limit : ℤ) (m : Message Payload)
      → m.offset ≡ pos (suc j)
      → is_skipped (from_cursor k limit) m ≡ leb (suc j) k
  unfolding is_skipped text_eq
  skipped_by_cursor k j limit m e = rw e (ground arith)

  keep_all :
      (k j : ℕ) (limit : ℤ) (msgs : List (Message Payload))
      → k ≤ j
      → IsNumbered j msgs
      → filter (kept (from_cursor k limit)) msgs ≡ msgs
  keep_all k j limit [] le h = refl
  keep_all k j limit (m ∷ msgs) le h =
      rw (skipped_by_cursor k j limit m h.0, not-leb k j le)
        (ap (λ (r : List (Message Payload)). m ∷ r)
          (keep_all k (suc j) limit msgs (omega arith) h.1))

  keep_from :
      (d k j : ℕ) (limit : ℤ) (msgs : List (Message Payload))
      → k ≡ j + d
      → IsNumbered j msgs
      → filter (kept (from_cursor k limit)) msgs ≡ drop d msgs
  keep_from zero k j limit msgs e h = keep_all k j limit msgs (omega arith) h
  keep_from (suc d) k j limit [] e h = refl
  keep_from (suc d) k j limit (m ∷ msgs) e h =
      rw (skipped_by_cursor k j limit m h.0, leb_cursor k j d e)
        (keep_from d k (suc j) limit msgs (omega arith) h.1)

  -- On a log numbered from 1, a query from offset `k` returns what stands behind the first `k`
  -- messages, up to the limit: a reader that goes on from the last offset it was given misses no
  -- message and reads none twice.
  pub query-cursor :
      (ns : Text) (k : ℕ) (limit : ℤ) (p : Provider Payload)
      → WellNumbered ns p
      → query ns (from_cursor k limit) p ≡ ok (limited limit (drop k (p.messages ns)))
  query-cursor ns k limit p w =
      query-filter ns (from_cursor k limit) p
      ∙ ap (λ msgs. ok (limited limit msgs))
          (keep_from k k 0 limit (p.messages ns) (omega arith) w.numbered)

  pub query-all_messages :
      (ns : Text) (p : Provider Payload)
      → WellNumbered ns p
      → query ns all_messages p ≡ ok (p.messages ns)
  query-all_messages ns p w = query-cursor ns 0 (pos 0) p w
