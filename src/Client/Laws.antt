-- ===== src/Client/Laws.antt =====
-- What a provider promises to the client: the interface between pkg/hearsay/client.go and the
-- providers. `log` is the abstract log of a namespace, and `IsSound` the provider's own invariant.
use hearsay.Base.{Bool, suc, ◌<◌, ◌≡◌, List, [], ◌∷◌, ◌++◌, All, filter, length}
use hearsay.Base.Int.{ℤ, Time, ◌<ℤ◌, two63}
use hearsay.Base.Text.{Text}
use hearsay.Claims.{Claim, resource_matches_pattern}
use hearsay.Provider.{Message, Json, LogProvider, ok}
use hearsay.Active.{filter_active_claims}

-- A message as the log stores it.
abbrev pub stored : {Payload : Type 0} → Time → Text → ℤ → Message Payload → Message Payload
stored now ns o m = record m { offset = o; namespace = ns; timestamp = now }

pub record LogLaws {Payload S : Type 0} (json : Json Payload) (path_match : Text → Text → Bool)
    (provider : LogProvider Payload S) (ns : Text) (log : S → List (Message Payload))
    (IsSound : S → Type 0) : Type 0 where
  -- The active claims are those of the log whose resource matches the pattern.
  pub active_claims_lem :
      (now : Time) (pattern : Text) (s : S)
      → IsSound s
      → provider.active_claims now ns pattern s
        ≡ ok (
            filter
              (λ (c : Claim). resource_matches_pattern path_match pattern c.resource_uri)
              (filter_active_claims json now (log s)))
  -- While an int64 has room, an append succeeds, and puts its message behind all others, at an
  -- offset above theirs.
  pub append_lem :
      (now : Time) (m : Message Payload) (s : S)
      → IsSound s
      → suc (length (log s)) < two63
      → (o : ℤ) × ((provider.append now ns (m ∷ []) s).0 ≡ ok tt)
        × (log (provider.append now ns (m ∷ []) s).1 ≡ log s ++ (stored now ns o m ∷ []))
        × All (λ (x : Message Payload). x.offset <ℤ o) (log s)
        × IsSound (provider.append now ns (m ∷ []) s).1
