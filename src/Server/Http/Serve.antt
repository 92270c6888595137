-- ===== src/Server/Http/Serve.antt =====
-- internal/server/server.go: which handler stands at which pattern, and what stands before it.
-- The choice of the pattern is that of net/http. `at_events` is in Server/Http/Events.
use hearsay.Base.{Bool, true, false, [], if◌then◌else◌}
use hearsay.Base.Int.{Time}
use hearsay.Base.Text.{Text, codes}
use hearsay.Provider.{Json}
use hearsay.Server.Audit.{Entry, Logger, log}
use hearsay.Server.Guarding.{passes}
use hearsay.Server.RateLimit.{Windows, Answer, unlimited, served, blocked, wrap, agent_of_header}
use hearsay.Server.Http.{Reply, Request, Bodies, Store, Setting, Handler, reply, refusal, accepted}
use hearsay.Server.Http.Coordination.{
  handle_claim, handle_release, handle_heartbeat, handle_intent, handle_query_claims, handle_check,
}
use hearsay.Server.Http.Proxy.{
  handle_create_namespace, handle_delete_namespace, handle_append, handle_release_expired,
  handle_query, handle_agent_state,
}
use hearsay.Server.Http.Mailbox.{
  handle_send_message, handle_get_mailbox, handle_mark_read, handle_archive_message,
}

-- The patterns of the multiplexer, but for `GET /events`, which is in Server/Http/Events.
pub data Endpoint : Type 0 where
  at_health at_claims at_check at_mailbox at_query at_agents : Endpoint
  at_claim at_release at_heartbeat at_intent at_message at_read at_archive : Endpoint
  at_create at_delete at_append at_expire : Endpoint

-- The patterns whose handlers are wrapped.
unfoldable pub is_guarded : Endpoint → Bool
is_guarded at_health = false
is_guarded at_claims = false
is_guarded at_check = false
is_guarded at_mailbox = false
is_guarded at_query = false
is_guarded at_agents = false
is_guarded _ = true

-- The server between two requests.
pub record Site (S : Type 0) : Type 0 where
  pub windows : Windows
  pub logger : Logger S

abbrev pub unauthorized_entry : Entry
unauthorized_entry = record {
  event_type = codes "auth_failure";
  agent_id = [];
  resource_uri = [];
  outcome = codes "unauthorized";
  metadata = [];
}

abbrev pub blocked_entry : Text → Entry
blocked_entry agent = record {
  event_type = codes "rate_limit";
  agent_id = agent;
  resource_uri = [];
  outcome = codes "blocked";
  metadata = [];
}

module _ {Payload S : Type 0} where
  abbrev pub with_windows : Windows → Reply Payload × Logger S → Reply Payload × Site S
  with_windows ws (r, l) = (r, record { windows = ws; logger = l })

module _ {Payload S Body : Type 0} (json : Json Payload) (store : Store Payload S)
    (bodies : Bodies Payload Body) (set : Setting) (now : Time) (new_id : Text) where
  unfoldable pub handle : Endpoint → Request Body → Handler Payload S
  handle at_health r = λ l. (reply 200 accepted, l)
  handle at_claims r = handle_query_claims json store bodies set now r
  handle at_check r = handle_check json store bodies set now r
  handle at_mailbox r = handle_get_mailbox store bodies now r
  handle at_query r = handle_query store bodies set now r
  handle at_agents r = handle_agent_state store bodies set now r
  handle at_claim r = handle_claim json store bodies set now r.body
  handle at_release r = handle_release json store bodies set now r.body
  handle at_heartbeat r = handle_heartbeat json store bodies set now r.body
  handle at_intent r = handle_intent json store bodies set now r.body
  handle at_message r = handle_send_message store bodies now new_id r
  handle at_read r = handle_mark_read store bodies now r
  handle at_archive r = handle_archive_message store bodies now r
  handle at_create r = handle_create_namespace store bodies set now r.body
  handle at_delete r = handle_delete_namespace store bodies set now r.body
  handle at_append r = handle_append store bodies set now r.body
  handle at_expire r = handle_release_expired store bodies set now r.body

  -- `s.auth.Wrap(h)`.
  unfoldable pub authorized : Request Body → Handler Payload S → Handler Payload S
  authorized r h l =
      if passes set.token r.headers
      then h l
      else (reply 401 refusal, log set.marshal now unauthorized_entry l)

  abbrev pub admitted :
      Answer → Windows → Text → Handler Payload S → Logger S → Reply Payload × Site S
  admitted unlimited ws agent h l = with_windows ws (h l)
  admitted (served n) ws agent h l = with_windows ws (h l)
  admitted (blocked n) ws agent h l =
      with_windows ws (reply 429 refusal, log set.marshal now (blocked_entry agent) l)

  -- `s.rateLimit.Wrap(h)`.
  unfoldable pub rate_limited : Request Body → Handler Payload S → Site S → Reply Payload × Site S
  rate_limited r h site =
      let (answer, ws) = wrap set.limit now r.agent_header site.windows in
      admitted answer ws (agent_of_header r.agent_header) h site.logger

  unfoldable pub serve : Endpoint → Request Body → Site S → Reply Payload × Site S
  serve e r site =
      if is_guarded e
      then rate_limited r (authorized r (handle e r)) site
      else with_windows site.windows (handle e r site.logger)
