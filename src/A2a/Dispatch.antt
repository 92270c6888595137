-- ===== src/A2a/Dispatch.antt =====
-- internal/a2a/server.go: the dispatch of JSON-RPC requests to the handlers.
-- The parameters of a request are a `Params`, which each handler decodes by one of the two functions.
-- `has_config` says that `cfg` is not nil: without it, the runtime cannot stream.
use hearsay.Base.{ℕ, Bool, Option, none, some, if◌then◌else◌}
use hearsay.Base.Int.{Time}
use hearsay.Base.Text.{Text, codes, text_eq}
use hearsay.A2a.Task.{Task, RpcError, unsupported_runtime}
use hearsay.A2a.Skills.{Server}
use hearsay.A2a.Handlers.{
  Outcome, done, fail, TaskParams, handle_tasks_send, handle_tasks_get, handle_tasks_cancel,
}
use hearsay.A2a.Streaming.{Subscribed, handle_tasks_send_subscribe}

pub record RpcRequest (Params : Type 0) : Type 0 where
  pub method : Text
  pub params : Params

pub data RpcReply (Payload : Type 0) : Type 0 where
  invalid_request method_not_found : RpcReply Payload
  task_reply : Task Payload → RpcReply Payload
  error_reply : RpcError → RpcReply Payload
  stream_reply : Subscribed Payload → RpcReply Payload

module _ {Payload S : Type 0} where
  abbrev pub replied : Outcome (Task Payload) × S → RpcReply Payload × S
  replied (done task, s) = (task_reply task, s)
  replied (fail e, s) = (error_reply e, s)

  abbrev pub streamed_reply : Subscribed Payload × S → RpcReply Payload × S
  streamed_reply (out, s) = (stream_reply out, s)

module _ {Payload S Params : Type 0} (srv : Server Payload S)
    (task_params : Params → Option (TaskParams Payload)) (id_param : Params → Option Text)
    (has_config flusher : Bool) (sends : ℕ → Bool) (cancelled : Bool) (now : Time)
    (auth_agent : Text) where
  unfoldable pub dispatch : RpcRequest Params → S → RpcReply Payload × S
  dispatch req s =
      if text_eq req.method (codes "tasks/sendSubscribe")
      then (if has_config
          then streamed_reply (
              handle_tasks_send_subscribe srv now flusher sends cancelled auth_agent
                (task_params req.params) s)
          else (error_reply unsupported_runtime, s))
      else if text_eq req.method (codes "tasks/send")
      then replied (handle_tasks_send srv now auth_agent (task_params req.params) s)
      else if text_eq req.method (codes "tasks/get")
      then replied (handle_tasks_get srv (id_param req.params) s)
      else if text_eq req.method (codes "tasks/cancel")
      then replied (handle_tasks_cancel srv now (id_param req.params) s)
      else (method_not_found, s)

  -- `none` is a body that cannot be decoded.
  unfoldable pub handle_json_rpc : Option (RpcRequest Params) → S → RpcReply Payload × S
  handle_json_rpc none s = (invalid_request, s)
  handle_json_rpc (some req) s = dispatch req s
