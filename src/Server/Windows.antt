-- ===== src/Server/Windows.antt =====
-- How many requests of one agent are served in a second (internal/server/ratelimit.go).
use hearsay.Base.{
  ℕ, ◌≤◌, ◌≡◌, Bool, true, false, List, [], ◌∷◌, ◌++◌, All, length, ◌&&◌, filter, if◌then◌else◌,
}
use hearsay.Base.Int.{ℤ, ◌≤ℤ◌, Time, is_after}
use hearsay.Base.Text.{Text, text_eq}
use hearsay.Server.RateLimit.{
  Windows, Answer, unlimited, served, blocked, window_start, agent_of_header, wrap,
}

abbrev pub is_served : Answer → Bool
is_served unlimited = true
is_served (served r) = true
is_served (blocked r) = false

-- The instants at which requests of `agent` were served, after one more request.
abbrev pub note : Text → Time → Text → Answer → List Time → List Time
note agent now header ans times =
    if text_eq (agent_of_header header) agent && is_served ans then times ++ (now ∷ []) else times

-- A run of requests, each with its instant and its header, from the state of the limiter and the
-- instants at which requests of `agent` were served so far.
abbrev pub run : ℤ → Text → List (Time × Text) → Windows × List Time → Windows × List Time
run limit agent [] st = st
run limit agent ((now, header) ∷ reqs) (w, times) =
    let out = wrap limit now header w in
    run limit agent reqs (out.1, note agent now header out.0 times)

-- The clock does not run backwards.
abbrev pub Ascending : Time → List (Time × Text) → Type 0
Ascending last [] = Unit {0}
Ascending last ((now, header) ∷ reqs) = (last ≤ℤ now) × Ascending now reqs

abbrev pub last_time : Time → List (Time × Text) → Time
last_time last [] = last
last_time last ((now, header) ∷ reqs) = last_time now reqs

abbrev pub in_window : Time → List Time → List Time
in_window now times = filter (λ t. is_after t (window_start now)) times

abbrev pub Old : Time → List Time → Type 0
Old now times = All (λ t. is_after t (window_start now) ≡ false) times

-- What the limiter keeps for the agent is the end of the served instants, and what it has dropped
-- is older than a second.
record Kept (limit : ℕ) (now : Time) (kept times : List Time) : Type 0 where
  old : List Time
  split : times ≡ old ++ kept
  is_old : Old now old
  bound : length (in_window now times) ≤ limit
