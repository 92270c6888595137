-- ===== src/Server/Http/Proxy.antt =====
-- internal/server/server.go: the handlers that pass requests on to the provider.
use hearsay.Base.{[], Option, none, some, List, if◌then◌else◌}
use hearsay.Base.Int.{ℤ, pos, Time}
use hearsay.Base.Text.{Text, codes, text_eq}
use hearsay.Provider.{Message, Namespace, QueryOpts}
use hearsay.Server.Http.{
  Request, Bodies, Store, Setting, Handler, reply, no_content, messages_content, agent_content,
  on_store, decoded, answered, answered_with,
}

-- An integer parameter, which is 0 where it is missing or cannot be parsed.
unfoldable pub int_param : (Text → Option ℤ) → Text → ℤ
int_param parse_int t =
    if text_eq t [] then pos 0 else elim (parse_int t) [ none ↦ pos 0 | some v ↦ v ]

module _ {Payload S Body : Type 0} (store : Store Payload S) (bodies : Bodies Payload Body)
    (set : Setting) (now : Time) where
  abbrev pub make_namespace : Namespace → Handler Payload S
  make_namespace ns l = answered (reply 200 no_content) 500 (on_store (store.create_namespace ns) l)

  unfoldable pub handle_create_namespace : Body → Handler Payload S
  handle_create_namespace body = decoded (bodies.namespace_request body) make_namespace

  abbrev pub drop_namespace : Text → Handler Payload S
  drop_namespace id l = answered (reply 200 no_content) 500 (on_store (store.delete_namespace id) l)

  unfoldable pub handle_delete_namespace : Body → Handler Payload S
  handle_delete_namespace body = decoded (bodies.deletion_request body) drop_namespace

  abbrev pub append_messages : Text × List (Message Payload) → Handler Payload S
  append_messages (ns, msgs) l =
      answered (reply 200 no_content) 500 (on_store (store.log.append now ns msgs) l)

  unfoldable pub handle_append : Body → Handler Payload S
  handle_append body = decoded (bodies.append_request body) append_messages

  abbrev pub expire : Text × Time → Handler Payload S
  expire (ns, before) l =
      answered (reply 200 no_content) 500 (on_store (store.release_expired ns before) l)

  unfoldable pub handle_release_expired : Body → Handler Payload S
  handle_release_expired body = decoded (bodies.expiry_request body) expire

  unfoldable pub query_opts : Request Body → QueryOpts
  query_opts r = record {
    since = int_param set.parse_int (r.query (codes "since"));
    types = [];
    agent_id = r.query (codes "agent");
    limit = int_param set.parse_int (r.query (codes "limit"));
  }

  unfoldable pub handle_query : Request Body → Handler Payload S
  handle_query r l =
      answered_with messages_content
        (store.log.query (r.query (codes "namespace")) (query_opts r) l.store) l

  unfoldable pub handle_agent_state : Request Body → Handler Payload S
  handle_agent_state r l =
      answered_with agent_content
        (store.agent_state now (r.query (codes "namespace")) (r.query (codes "agent")) l.store) l
