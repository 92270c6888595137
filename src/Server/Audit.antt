-- ===== src/Server/Audit.antt =====
-- pkg/hearsay/audit.go and internal/server/audit.go: what is audited, and the logger with its worker.
-- The channel is a queue of at most 256 events. `marshal` stands for `json.Marshal`.
use hearsay.Base.{ℕ, Bool, true, false, List, [], ◌∷◌, ◌++◌, length, leb, ltb, any, if◌then◌else◌}
use hearsay.Base.Int.{ℤ, pos, Time, leb_ℤ, eq_ℤ}
use hearsay.Base.Text.{Text, codes, text_eq}
use hearsay.Provider.{AuditEvent}

-- `AuditLevel` is an `int`.
abbrev pub audit_off : ℤ
audit_off = pos 0

abbrev pub audit_coordination : ℤ
audit_coordination = pos 1

abbrev pub audit_security : ℤ
audit_security = pos 2

abbrev pub audit_full : ℤ
audit_full = pos 3

unfoldable pub parse_audit_level : Text → ℤ
parse_audit_level s =
    if text_eq s (codes "coordination")
    then audit_coordination
    else if text_eq s (codes "security")
    then audit_security
    else if text_eq s (codes "full")
    then audit_full
    else audit_off

unfoldable pub level_name : ℤ → Text
level_name level =
    if eq_ℤ level audit_coordination
    then codes "coordination"
    else if eq_ℤ level audit_security
    then codes "security"
    else if eq_ℤ level audit_full
    then codes "full"
    else codes "off"

abbrev pub is_one_of : List Text → Text → Bool
is_one_of ts t = any (λ u. text_eq t u) ts

abbrev pub coordination_events : List Text
coordination_events = codes "claim" ∷ codes "release" ∷ codes "expire" ∷ codes "death_release" ∷ []

abbrev pub security_events : List Text
security_events = coordination_events ++ (codes "auth_failure" ∷ codes "rate_limit" ∷ [])

unfoldable pub should_log : ℤ → Text → Bool
should_log level event_type =
    if leb_ℤ audit_full level
    then true
    else if leb_ℤ audit_security level
    then is_one_of security_events event_type
    else if leb_ℤ audit_coordination level
    then is_one_of coordination_events event_type
    else false

abbrev pub capacity : ℕ
capacity = 256

abbrev pub batch_size : ℕ
batch_size = 32

-- An `AuditLogger`: its channel, the batch of its worker, and the state behind its provider.
pub record Logger (S : Type 0) : Type 0 where
  pub level : ℤ
  pub namespace : Text
  pub queue : List AuditEvent
  pub batch : List AuditEvent
  pub store : S

-- The arguments of `Log`.
pub record Entry : Type 0 where
  pub event_type : Text
  pub agent_id : Text
  pub resource_uri : Text
  pub outcome : Text
  pub metadata : List (Text × Text)

module _ (marshal : List (Text × Text) → Text) where
  abbrev pub metadata_of : List (Text × Text) → Text
  metadata_of [] = []
  metadata_of (e ∷ es) = marshal (e ∷ es)

  unfoldable pub event_of : Time → ℤ → Text → Entry → AuditEvent
  event_of now level ns e = record {
    namespace = ns;
    timestamp = now;
    level = level_name level;
    event_type = e.event_type;
    agent_id = e.agent_id;
    resource_uri = e.resource_uri;
    outcome = e.outcome;
    metadata = metadata_of e.metadata;
  }

  module _ {S : Type 0} where
    -- The send on the channel falls to its default where the channel is full.
    abbrev pub enqueue : AuditEvent → Logger S → Logger S
    enqueue ev l =
        if ltb (length l.queue) capacity then record l { queue = l.queue ++ (ev ∷ []) } else l

    unfoldable pub log : Time → Entry → Logger S → Logger S
    log now e l =
        if eq_ℤ l.level audit_off
        then l
        else if should_log l.level e.event_type
        then enqueue (event_of now l.level l.namespace e) l
        else l

module _ {S : Type 0} (append_audit : Text → List AuditEvent → S → S) where
  -- `flush`, with `batch = batch[:0]` behind it; an error of the provider is only printed.
  unfoldable pub flush : Logger S → Logger S
  flush l = record l { batch = []; store = append_audit l.namespace l.batch l.store }

  abbrev pub batched : Logger S → Logger S
  batched l = if leb batch_size (length l.batch) then flush l else l

  -- The two cases of the worker's `select`.
  unfoldable pub receive : Logger S → Logger S
  receive l = elim l.queue [
    | [] ↦ l
    | ev ∷ rest ↦ batched (record l { queue = rest; batch = l.batch ++ (ev ∷ []) })
  ]

  unfoldable pub tick : Logger S → Logger S
  tick l = elim l.batch [ [] ↦ l | ev ∷ rest ↦ flush l ]
