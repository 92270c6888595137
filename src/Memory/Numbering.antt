-- ===== src/Memory/Numbering.antt =====
-- The offsets of the in-memory log, and what its queries return (internal/memory/memory.go).
use mathlib.Core.List.{append-nil, append_assoc}
use native.Mathlib.Nat.{add-zero}
use hearsay.Base.{
  ℕ, suc, ◌+◌, ◌<◌, ◌≡◌, refl, sym, ap, ◌∙◌, List, [], ◌∷◌, ◌++◌, length, length-append, arith,
}
use hearsay.Base.Int.{ℤ, pos, Time, ◌+ℤ◌, wrap64, wrap64-pos, two63}
use hearsay.Base.Text.{Text, text_eq_refl}
use hearsay.Provider.{Message}
use hearsay.Memory.{Provider}
use hearsay.Memory.Log.{append_one, append_all, append}

next_offset : (o : ℤ) (k : ℕ) → o ≡ pos k → suc k < two63 → wrap64 (o +ℤ pos 1) ≡ pos (suc k)
unfolding ◌+ℤ◌
next_offset o k e h = rw e (ap wrap64 (ground arith) ∙ wrap64-pos (suc k) h)

module _ {Payload : Type 0} where
  -- The offsets are k + 1, k + 2, and so on.
  abbrev pub IsNumbered : ℕ → List (Message Payload) → Type 0
  IsNumbered k [] = Unit
  IsNumbered k (m ∷ msgs) = (m.offset ≡ pos (suc k)) × IsNumbered (suc k) msgs

  -- The counter of a namespace is the number of its messages, and they are numbered from 1.
  pub record WellNumbered (ns : Text) (p : Provider Payload) : Type 0 where
    pub counter : p.offsets ns ≡ pos (length (p.messages ns))
    pub numbered : IsNumbered 0 (p.messages ns)

  -- What `append` stores after the first `k` messages.
  unfoldable pub stamp : Time → Text → ℕ → List (Message Payload) → List (Message Payload)
  stamp now ns k [] = []
  stamp now ns k (m ∷ msgs) =
      record m { offset = pos (suc k); namespace = ns; timestamp = now } ∷ stamp now ns (suc k) msgs

  append_one-offsets :
      (now : Time) (ns : Text) (m : Message Payload) (p : Provider Payload) (k : ℕ)
      → p.offsets ns ≡ pos k
      → suc k < two63
      → (append_one now ns p m).offsets ns ≡ pos (suc k)
  unfolding append_one
  append_one-offsets now ns m p k e h = rw (text_eq_refl ns) (next_offset (p.offsets ns) k e h)

  append_one-messages :
      (now : Time) (ns : Text) (m : Message Payload) (p : Provider Payload) (k : ℕ)
      → p.offsets ns ≡ pos k
      → suc k < two63
      → (append_one now ns p m).messages ns ≡ p.messages ns ++ stamp now ns k (m ∷ [])
  unfolding append_one stamp
  append_one-messages now ns m p k e h = rw (text_eq_refl ns, next_offset (p.offsets ns) k e h)

  pub append_all-messages :
      (now : Time) (ns : Text) (msgs : List (Message Payload)) (p : Provider Payload) (k : ℕ)
      → p.offsets ns ≡ pos k
      → k + length msgs < two63
      → ((append_all now ns msgs p).messages ns ≡ p.messages ns ++ stamp now ns k msgs)
        × ((append_all now ns msgs p).offsets ns ≡ pos (k + length msgs))
  unfolding append_all stamp
  append_all-messages now ns [] p k e h = (sym (append-nil _), rw add-zero e)
  append_all-messages now ns (m ∷ msgs) p k e h =
      let room : suc k < two63 = omega arith in
      let later =
        append_all-messages now ns msgs (append_one now ns p m) (suc k)
          (append_one-offsets now ns m p k e room) (omega arith) in
      (
        later.0
            ∙ rw (append_one-messages now ns m p k e room) (
                append_assoc (p.messages ns) (stamp now ns k (m ∷ [])) (stamp now ns (suc k) msgs)),
        later.1 ∙ ap pos (omega arith),
      )

  pub length-stamp :
      (now : Time) (ns : Text) (k : ℕ) (msgs : List (Message Payload))
      → length (stamp now ns k msgs) ≡ length msgs
  unfolding stamp
  length-stamp now ns k [] = refl
  length-stamp now ns k (m ∷ msgs) = ap suc (length-stamp now ns (suc k) msgs)

  pub stamp-IsNumbered :
      (now : Time) (ns : Text) (k : ℕ) (msgs : List (Message Payload))
      → IsNumbered k (stamp now ns k msgs)
  unfolding stamp
  stamp-IsNumbered now ns k [] = tt
  stamp-IsNumbered now ns k (m ∷ msgs) = (refl, stamp-IsNumbered now ns (suc k) msgs)

  pub IsNumbered-append :
      (k j : ℕ) (xs ys : List (Message Payload))
      → j ≡ k + length xs
      → IsNumbered k xs
      → IsNumbered j ys
      → IsNumbered k (xs ++ ys)
  IsNumbered-append k j [] ys e hx hy = let e' : j ≡ k = omega arith in rw e' at hy
  IsNumbered-append k j (x ∷ xs) ys e hx hy =
      (hx.0, IsNumbered-append (suc k) j xs ys (omega arith) hx.1 hy)

  -- An append to a namespace whose log is numbered from 1, with room for the messages in an int64,
  -- adds exactly the messages, in order and with the next offsets, and leaves the log numbered.
  pub append-WellNumbered :
      (now : Time) (ns : Text) (msgs : List (Message Payload)) (p : Provider Payload)
      → WellNumbered ns p
      → length (p.messages ns) + length msgs < two63
      → ((append now ns msgs p).1.messages ns
          ≡ p.messages ns ++ stamp now ns (length (p.messages ns)) msgs)
        × WellNumbered ns (append now ns msgs p).1
  unfolding append
  append-WellNumbered now ns msgs p w h =
      let k = length (p.messages ns) in
      let all = append_all-messages now ns msgs p k w.counter h in
      (
        all.0,
        record {
          counter =
              all.1
              ∙ ap pos (
                  rw all.0 (
                    sym (
                      length-append (p.messages ns) (stamp now ns k msgs)
                      ∙ ap (λ n. k + n) (length-stamp now ns k msgs))));
          numbered = rw all.0 (
              IsNumbered-append 0 k (p.messages ns) (stamp now ns k msgs) (omega arith) w.numbered
                (stamp-IsNumbered now ns k msgs));
        },
      )
