-- ===== src/Memory/LogLaws.antt =====
-- The in-memory provider keeps the laws that the client relies on (internal/memory/memory.go).
use hearsay.Base.{ℕ, suc, ◌+◌, ◌≡◌, refl, ap, Bool, List, [], ◌∷◌, All, filter, length, arith}
use hearsay.Base.Int.{pos, Time, ◌<ℤ◌}
use hearsay.Base.Text.{Text}
use hearsay.Claims.{Claim, resource_matches_pattern}
use hearsay.Provider.{Message, Json, LogProvider, ok}
use hearsay.Active.{filter_active_claims}
use hearsay.Memory.{Provider}
use hearsay.Memory.Log.{append, query, active_claims, claims_matching}
use hearsay.Memory.Numbering.{IsNumbered, WellNumbered, stamp, append-WellNumbered}
use hearsay.Memory.Queries.{query-all_messages}
use hearsay.Client.Laws.{LogLaws}

module _ {Payload : Type 0} (json : Json Payload) (path_match : Text → Text → Bool) where
  abbrev pub memory_provider : LogProvider Payload (Provider Payload)
  memory_provider = record {
    append = append;
    query = query;
    active_claims = active_claims json path_match;
  }

  numbered_below :
      (k j : ℕ) (msgs : List (Message Payload))
      → j ≡ k + length msgs
      → IsNumbered k msgs
      → All (λ (x : Message Payload). x.offset <ℤ pos (suc j)) msgs
  numbered_below k j [] e h = tt
  numbered_below k j (m ∷ msgs) e h =
      (rw h.0 (omega arith), numbered_below (suc k) j msgs (omega arith) h.1)

  active_claims-filter :
      (ns : Text) (now : Time) (pattern : Text) (p : Provider Payload)
      → WellNumbered ns p
      → active_claims json path_match now ns pattern p
        ≡ ok (
            filter
              (λ (c : Claim). resource_matches_pattern path_match pattern c.resource_uri)
              (filter_active_claims json now (p.messages ns)))
  unfolding active_claims
  active_claims-filter ns now pattern p w =
      ap (claims_matching json path_match now pattern) (query-all_messages ns p w)

  -- The in-memory provider, while its log is numbered from 1, keeps the laws of a log provider: its
  -- active claims are those of the log, and an append adds a message behind all others.
  pub memory-LogLaws :
      (ns : Text)
      → LogLaws json path_match memory_provider ns (λ p. p.messages ns) (WellNumbered ns)
  memory-LogLaws ns = record {
    active_claims_lem = λ now pattern p w. active_claims-filter ns now pattern p w;
    append_lem = λ now m p w room.
        let (grown, w') = append-WellNumbered now ns (m ∷ []) p w (omega arith) in
        (
          pos (suc (length (p.messages ns))),
          (unfold append in refl),
          (unfold stamp in grown),
          numbered_below 0 (length (p.messages ns)) (p.messages ns) (omega arith) w.numbered,
          w',
        );
  }
