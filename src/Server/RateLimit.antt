-- ===== src/Server/RateLimit.antt =====
-- internal/server/ratelimit.go: the limiter of the requests of each agent.
-- The mutex is held from the first access of the map to the last, so a request is one step.
use hearsay.Base.{ℕ, Bool, List, [], ◌∷◌, ◌++◌, length, if◌then◌else◌}
use hearsay.Base.Int.{ℤ, pos, negsuc, ◌+ℤ◌, Time, is_after, leb_ℤ, ltb_ℤ}
use hearsay.Base.Text.{Text, codes, text_eq}
use hearsay.Memory.{update}

-- `perAgent`.
abbrev pub Windows : Type 0
Windows = Text → List Time

-- What a request gets. `served` and `blocked` carry the header X-RateLimit-Remaining; a `blocked`
-- request has the status 429 and is not passed to the next handler.
pub data Answer : Type 0 where
  unlimited : Answer
  served blocked : ℤ → Answer

-- `now.Add(-1 * time.Second)`.
abbrev pub window_start : Time → Time
window_start now = now +ℤ negsuc 999999999

-- `timestamps[cutoff:]`: the first instant inside the window and all behind it.
unfoldable pub evict : Time → List Time → List Time
evict start [] = []
evict start (t ∷ ts) = let rest = evict start ts in if is_after t start then t ∷ ts else rest

unfoldable pub agent_of_header : Text → Text
agent_of_header header = if text_eq header [] then codes "unknown" else header

unfoldable pub remaining : ℤ → ℕ → ℤ
remaining limit count =
    let left = limit +ℤ negsuc count in if ltb_ℤ left (pos 0) then pos 0 else left

unfoldable pub is_limited : ℤ → List Time → Bool
is_limited limit ts = leb_ℤ limit (pos (length ts))

-- The handler that `Wrap` returns, up to the call of the next one.
unfoldable pub wrap : ℤ → Time → Text → Windows → Answer × Windows
wrap limit now header per_agent =
    let agent = agent_of_header header in
    let ts = evict (window_start now) (per_agent agent) in
    if leb_ℤ limit (pos 0)
    then (unlimited, per_agent)
    else if is_limited limit ts
    then (blocked (remaining limit (length ts)), per_agent)
    else (served (remaining limit (length ts)), update agent (ts ++ (now ∷ [])) per_agent)
