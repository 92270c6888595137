-- ===== src/A2a/Streaming.antt =====
-- internal/a2a: task_executor.go, the stream of a task's execution; tasks/sendSubscribe in
-- handler_tasks.go; sse.go, its frames; and server.go, the dispatch of JSON-RPC requests.
-- The channel of the executor has room for the five events that it sends at most, so it never waits
-- for the reader; all its calls of the provider come before the event that makes the handler call it.
-- `sends n` says that its n-th send succeeds, which it does unless the context is cancelled;
-- `cancelled` is the test of the context before the skill. A frame that cannot be written is lost.
use hearsay.Base.{ℕ, Bool, true, false, not, List, [], ◌∷◌, Option, none, some, if◌then◌else◌}
use hearsay.Base.Int.{pos, Time}
use hearsay.Base.Text.{Text, text_eq}
use hearsay.Provider.{task_working, task_completed, task_failed, Result, ok, err}
use hearsay.A2a.Task.{
  Message, Artifact, Task, RpcError, invalid_params, missing_id, failed_to_store, transition_failed,
  task_cancelled, streaming_unsupported, transition, new_task, task_to_storage,
}
use hearsay.A2a.Skills.{Server, SkillOutcome, execute_skill}
use hearsay.A2a.Handlers.{TaskParams, user_message, storage_of}

pub data TaskEvent (Payload : Type 0) : Type 0 where
  status_event done_event : Task Payload → TaskEvent Payload
  artifact_event : Task Payload → List (Artifact Payload) → TaskEvent Payload
  error_event : RpcError → Task Payload → TaskEvent Payload

-- The capacity of the executor's channel.
abbrev pub channel_size : ℕ
channel_size = 8

-- What `SSEWriter` writes.
pub data Frame (Payload : Type 0) : Type 0 where
  status_frame artifact_frame close_frame : Task Payload → Frame Payload
  error_frame : RpcError → Frame Payload

pub data Subscribed (Payload : Type 0) : Type 0 where
  refused : RpcError → Subscribed Payload
  streamed : List (Frame Payload) → Subscribed Payload

module _ {Payload : Type 0} where
  -- `exec.send`, and what follows where it succeeds.
  abbrev pub sent : Bool → TaskEvent Payload → List (TaskEvent Payload) → List (TaskEvent Payload)
  sent true ev rest = ev ∷ rest
  sent false ev rest = []

module _ {Payload S : Type 0} (srv : Server Payload S) (sends : ℕ → Bool) (now : Time) where
  -- Behind the artifacts.
  abbrev completion : Task Payload → List (TaskEvent Payload)
  completion task =
      let (moved, completed_task) = transition now task_completed task in
      if moved
      then sent (sends 4) (status_event completed_task)
          (sent (sends 5) (done_event completed_task) [])
      else sent (sends 4) (error_event transition_failed task) []

  abbrev pub outputs : Task Payload → List (TaskEvent Payload) → List (TaskEvent Payload)
  outputs task rest = elim task.artifacts [
    | [] ↦ rest
    | art ∷ arts ↦ sent (sends 3) (artifact_event task (art ∷ arts)) rest
  ]

  -- What the executor does with the result of the skill.
  unfoldable pub events_behind_skill : SkillOutcome Payload S → List (TaskEvent Payload) × S
  events_behind_skill (some e, task, s) =
      (sent (sends 2) (error_event e (transition now task_failed task).1) [], s)
  events_behind_skill (none, task, s) = (outputs task (completion task), s)

  abbrev pub behind_status :
      Task Payload → List (TaskEvent Payload) × S → List (TaskEvent Payload) × S
  behind_status task (evs, s) = (status_event task ∷ evs, s)

  -- From the working task on.
  abbrev working_events :
      Bool → Text → Message Payload → Task Payload → S → List (TaskEvent Payload) × S
  working_events cancelled auth_agent msg task s =
      let skill = events_behind_skill (execute_skill srv now auth_agent task msg s) in
      if not (sends 1)
      then ([], s)
      else behind_status task (
          if cancelled
          then (
            sent (sends 2) (error_event task_cancelled (transition now task_failed task).1) [],
            s,
          )
          else skill)

  unfoldable pub start_task_execution :
      Bool → Text → Task Payload → Message Payload → S → List (TaskEvent Payload) × S
  start_task_execution cancelled auth_agent task msg s =
      let (moved, working_task) = transition now task_working task in
      let working = working_events cancelled auth_agent msg working_task s in
      if not (sends 0)
      then (error_event task_cancelled task ∷ [], s)
      else behind_status task
          (if moved then working else (sent (sends 1) (error_event transition_failed task) [], s))

module _ {Payload S : Type 0} (srv : Server Payload S) (now : Time) where
  -- The loop that stores the artifacts of an event; the errors of the provider are dropped. The id
  -- of the handler's task is that of the executor's.
  unfoldable pub keep_artifacts : Text → List (Artifact Payload) → S → S
  keep_artifacts id [] s = s
  keep_artifacts id (art ∷ arts) s =
      keep_artifacts id arts (srv.tasks.create_artifact srv.namespace id (storage_of srv art) s).1

  abbrev pub keep_task : Task Payload → S → S
  keep_task task s =
      (srv.tasks.update_task srv.namespace (task_to_storage srv.a2a_json now task) s).1

  abbrev pub framed : Frame Payload → List (Frame Payload) × S → List (Frame Payload) × S
  framed f (fs, s) = (f ∷ fs, s)

  -- The loop over the events.
  unfoldable pub stream_events : List (TaskEvent Payload) → S → List (Frame Payload) × S
  stream_events [] s = ([], s)
  stream_events (status_event task ∷ evs) s = framed (status_frame task) (stream_events evs s)
  stream_events (artifact_event task arts ∷ evs) s =
      framed (artifact_frame task) (stream_events evs (keep_artifacts task.id arts s))
  stream_events (error_event e task ∷ evs) s = (error_frame e ∷ [], keep_task task s)
  stream_events (done_event task ∷ evs) s = (close_frame task ∷ [], keep_task task s)

  abbrev pub as_stream : List (Frame Payload) × S → Subscribed Payload × S
  as_stream (frames, s) = (streamed frames, s)

  abbrev pub stream_task :
      (ℕ → Bool) → Bool → Text → Task Payload → Message Payload → S → Subscribed Payload × S
  stream_task sends cancelled auth_agent task msg s =
      let (evs, s') = start_task_execution srv sends now cancelled auth_agent task msg s in
      as_stream (stream_events evs s')

  abbrev pub stream_created :
      Bool
      → (ℕ → Bool)
      → Bool
      → Text
      → TaskParams Payload
      → Result (Unit {0}) × S
      → Subscribed Payload × S
  stream_created flusher sends cancelled auth_agent req (err e, s) =
      (refused (failed_to_store e), s)
  stream_created flusher sends cancelled auth_agent req (ok u, s) =
      let s' =
        (srv.tasks.append_task_history srv.namespace req.id (pos 0) (user_message srv req.message)
          s).1 in
      if flusher
      then stream_task sends cancelled auth_agent
          (new_task srv.a2a_json now req.id req.session_id srv.namespace) req.message s'
      else (refused streaming_unsupported, s')

  -- `flusher` says that the response writer can flush.
  unfoldable pub handle_tasks_send_subscribe :
      Bool → (ℕ → Bool) → Bool → Text → Option (TaskParams Payload) → S → Subscribed Payload × S
  handle_tasks_send_subscribe flusher sends cancelled auth_agent none s =
      (refused invalid_params, s)
  handle_tasks_send_subscribe flusher sends cancelled auth_agent (some req) s =
      if text_eq req.id []
      then (refused missing_id, s)
      else stream_created flusher sends cancelled auth_agent req (
          srv.tasks.create_task srv.namespace
            (task_to_storage srv.a2a_json now
              (new_task srv.a2a_json now req.id req.session_id srv.namespace))
            s)
