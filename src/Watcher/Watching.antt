-- ===== src/Watcher/Watching.antt =====
-- Which notifications make the watcher claim (internal/watcher/watcher.go).
use hearsay.Base.{◌≡◌, refl, ◌⊎◌, inl, inr, Bool, false, List, [], ◌∷◌, All, Option, none, some}
use hearsay.Base.Int.{ℤ, Time}
use hearsay.Base.Text.{Text}
use hearsay.Claims.{Operation}
use hearsay.Provider.{Json, LogProvider}
use hearsay.Watcher.{
  Config, FileEvent, operation_of_event, is_watched, handle_watched, handle_event, run,
}

module _ {Payload S : Type 0} (json : Json Payload) (provider : LogProvider Payload S)
    (namespace : Text) (decimal : ℤ → Text) (path_match : Text → Text → Bool)
    (path_matches : Text → Text → Bool) (base_of : Text → Text) (intent_at : Time → Text)
    (cfg : Config) where
  -- A notification of a file that is not watched, or of none of the four operations.
  abbrev pub IsIgnored : FileEvent → Type 0
  IsIgnored e = (is_watched path_matches base_of cfg e.name ≡ false) ⊎ (operation_of_event e ≡ none)

  ignored_event :
      (now : Time) (e : FileEvent) (s : S)
      → IsIgnored e
      → handle_event json provider namespace decimal path_match path_matches base_of intent_at cfg
          now e s
        ≡ s
  unfolding handle_event
  ignored_event now e s (inr none_of) = rw none_of refl
  ignored_event now e s (inl out) = unwatched (operation_of_event e)
    where
      unwatched :
          (o : Option Operation)
          → handle_watched json provider namespace decimal path_match path_matches base_of intent_at
              cfg now e o s
            ≡ s
      unwatched none = refl
      unwatched (some op) = rw out refl

  -- However many notifications come, the watcher leaves the provider alone where it ignores them all.
  pub run_ignored :
      (events : List (Time × FileEvent)) (s : S)
      → All (λ (e : Time × FileEvent). IsIgnored e.1) events
      → run json provider namespace decimal path_match path_matches base_of intent_at cfg events s
        ≡ s
  unfolding run
  run_ignored [] s h = refl
  run_ignored ((now, e) ∷ events) s h = rw (ignored_event now e s h.0) (run_ignored events s h.1)
