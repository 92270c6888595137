-- ===== src/Watcher.antt =====
-- internal/watcher/watcher.go: the claims that the watcher of a directory makes.
-- `path_matches` and `base_of` stand for `filepath.Match` (false for a malformed pattern) and
-- `filepath.Base`, `intent_at` for the text of the intent. Notifications come with the reading of the
-- clock at each; which directories they come from is not modelled.
pub mod Watching
use hearsay.Base.{
  Bool, true, false, not, ◌&&◌, ◌||◌, List, [], ◌∷◌, ◌++◌, Option, none, some, any, is_empty,
  if◌then◌else◌,
}
use hearsay.Base.Int.{ℤ, pos, Time, eq_ℤ}
use hearsay.Base.Text.{Text, codes, contains}
use hearsay.Claims.{Operation, op_write, op_delete, op_rename}
use hearsay.Provider.{Json, LogProvider}
use hearsay.Client.{ClaimRequest, ClaimResult, claim}

-- The fields of `Config` that decide something; the client has a namespace of its own.
pub record Config : Type 0 where
  pub poll_interval : ℤ
  pub claim_ttl : ℤ
  pub include : List Text
  pub exclude : List Text

-- `New`: the defaults, two seconds and a minute.
unfoldable pub new : Config → Config
new cfg = record cfg {
  poll_interval = if eq_ℤ cfg.poll_interval (pos 0) then pos 2000000000 else cfg.poll_interval;
  claim_ttl = if eq_ℤ cfg.claim_ttl (pos 0) then pos 60 else cfg.claim_ttl;
}

-- A notification: the file, and the operations that `event.Has` finds.
pub record FileEvent : Type 0 where
  pub name : Text
  pub has_write : Bool
  pub has_create : Bool
  pub has_remove : Bool
  pub has_rename : Bool

unfoldable pub operation_of_event : FileEvent → Option Operation
operation_of_event e =
    if e.has_write || e.has_create
    then some op_write
    else if e.has_remove
    then some op_delete
    else if e.has_rename
    then some op_rename
    else none

module _ (path_matches : Text → Text → Bool) (base_of : Text → Text) (cfg : Config) where
  unfoldable pub is_included : Text → Bool
  is_included path = is_empty cfg.include || any (λ p. path_matches p (base_of path)) cfg.include

  unfoldable pub is_excluded : Text → Bool
  is_excluded path = any (λ p. path_matches p (base_of path) || contains path p) cfg.exclude

  unfoldable pub is_watched : Text → Bool
  is_watched path = is_included path && not (is_excluded path)

-- The request of `handleChange`.
unfoldable pub request_for : (Time → Text) → Config → Time → Text → Operation → ClaimRequest
request_for intent_at cfg now path op = record {
  resource_uri = codes "file://" ++ path;
  agent_id = codes "watcher:auto";
  operation = op;
  intent = intent_at now;
  projected_end = [];
  ttl_seconds = cfg.claim_ttl;
  parent_claim_id = [];
}

module _ {Payload S : Type 0} (json : Json Payload) (provider : LogProvider Payload S)
    (namespace : Text) (decimal : ℤ → Text) (path_match : Text → Text → Bool)
    (path_matches : Text → Text → Bool) (base_of : Text → Text) (intent_at : Time → Text)
    (cfg : Config) where
  -- A claim that is refused or fails is printed, and the watcher goes on.
  unfoldable pub handle_change : Time → Text → Operation → S → S
  handle_change now path op s =
      (claim json provider namespace decimal path_match now (request_for intent_at cfg now path op)
        s).1

  abbrev pub handle_watched : Time → FileEvent → Option Operation → S → S
  handle_watched now e none s = s
  handle_watched now e (some op) s =
      if is_watched path_matches base_of cfg e.name then handle_change now e.name op s else s

  -- The case of the loop of `Run` for a notification.
  unfoldable pub handle_event : Time → FileEvent → S → S
  handle_event now e s = handle_watched now e (operation_of_event e) s

  unfoldable pub run : List (Time × FileEvent) → S → S
  run [] s = s
  run ((now, e) ∷ events) s = run events (handle_event now e s)
