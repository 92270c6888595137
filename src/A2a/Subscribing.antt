-- ===== src/A2a/Subscribing.antt =====
-- tasks/sendSubscribe leaves what tasks/send leaves (internal/a2a/handler_tasks.go,
-- internal/a2a/task_executor.go).
use hearsay.Base.{ℕ, ◌≡◌, Bool, true, List, [], ◌∷◌}
use hearsay.Base.Int.{Time}
use hearsay.Base.Text.{Text}
use hearsay.A2a.Task.{Task}
use hearsay.A2a.Skills.{Server}
use hearsay.A2a.Streaming.{Frame, status_frame, artifact_frame, close_frame, error_frame}

abbrev pub always : ℕ → Bool
always n = true

module _ {Payload : Type 0} where
  -- The last frame closes the stream with the task, or it is an error.
  abbrev pub Ends : Task Payload → List (Frame Payload) → Type 0
  Ends t [] = ⊥
  Ends t (status_frame u ∷ fs) = Ends t fs
  Ends t (artifact_frame u ∷ fs) = Ends t fs
  Ends t (close_frame u ∷ fs) = (u ≡ t) × (fs ≡ [])
  Ends t (error_frame e ∷ fs) = fs ≡ []

module _ {Payload S : Type 0} (srv : Server Payload S) (now : Time) where
  -- A stream that ends with the task and leaves the state.
  record Matches (t : Task Payload) (s' : S) (out : List (Frame Payload) × S) : Type 0 where
    ends : Ends t out.0
    state : out.1 ≡ s'
