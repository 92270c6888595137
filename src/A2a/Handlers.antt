-- ===== src/A2a/Handlers.antt =====
-- internal/a2a/handler_tasks.go: the handlers of tasks/send, tasks/get and tasks/cancel.
-- A handler is given its decoded parameters, `none` where decoding failed. A call whose error the
-- source drops keeps only the state that it leaves.
use hearsay.Base.{Bool, true, false, List, [], ◌∷◌, Option, none, some, if◌then◌else◌, ◌||◌, map}
use hearsay.Base.Int.{pos, Time}
use hearsay.Base.Text.{Text, codes, text_eq}
use hearsay.Claims.{outcome_abandoned}
use hearsay.Provider.{
  TaskState, task_working, task_completed, task_failed, task_canceled, A2aTask, A2aMessage,
  A2aArtifact, Result, ok, err,
}
use hearsay.Client
use hearsay.A2a.Task.{
  Message, Artifact, Task, RpcError, invalid_params, missing_id, no_such_task, failed_to_store,
  transition_failed, terminal_state, state_eq, transition, new_task, task_to_storage,
  storage_to_task,
}
use hearsay.A2a.Skills.{Server, SkillOutcome, execute_skill}

pub data Outcome (A : Type 0) : Type 0 where
  done : A → Outcome A
  fail : RpcError → Outcome A

abbrev pub Handler : Type 0 → Type 0 → Type 0
Handler S A = S → Outcome A × S

module _ {S A B : Type 0} where
  abbrev pub continue : Outcome A → (A → Handler S B) → Handler S B
  continue (done a) f s = f a s
  continue (fail e) f s = (fail e, s)

  infixl 10 ◌>>=◌ ◌>>◌
  abbrev pub ◌>>=◌ : Handler S A → (A → Handler S B) → Handler S B
  ◌>>=◌ m f s = let (r, s') = m s in continue r f s'

  abbrev pub ◌>>◌ : Handler S A → Handler S B → Handler S B
  ◌>>◌ m n = m >>= λ _. n

abbrev pub stored : Result (Unit {0}) → Outcome (Unit {0})
stored (ok u) = done tt
stored (err e) = fail (failed_to_store e)

module _ {S : Type 0} where
  abbrev pub pure : {A : Type 0} → A → Handler S A
  pure a s = (done a, s)

  abbrev pub guard : Bool → RpcError → Handler S (Unit {0})
  guard true e s = (done tt, s)
  guard false e s = (fail e, s)

  -- A call of the provider whose error ends the handler, and one whose error is dropped.
  abbrev pub store : (S → Result (Unit {0}) × S) → Handler S (Unit {0})
  store f s = let (r, s') = f s in (stored r, s')

  abbrev pub attempt : (S → Result (Unit {0}) × S) → Handler S (Unit {0})
  attempt f s = (done tt, (f s).1)

pub record TaskParams (Payload : Type 0) : Type 0 where
  pub id : Text
  pub session_id : Text
  pub message : Message Payload

module _ {Payload S : Type 0} (srv : Server Payload S) where
  abbrev pub user_message : Message Payload → A2aMessage Payload
  user_message msg = record { role = codes "user"; parts = srv.a2a_json.encode_message msg }

  abbrev pub storage_of : Artifact Payload → A2aArtifact Payload
  storage_of art = record {
    name = art.name;
    description = art.description;
    parts = srv.a2a_json.encode_parts art.parts;
    index = art.index;
    append = art.append;
    last_chunk = art.last_chunk;
  }

  -- The loop that stores the artifacts.
  unfoldable pub store_artifacts : Text → List (Artifact Payload) → Handler S (Unit {0})
  store_artifacts id [] = pure tt
  store_artifacts id (art ∷ arts) = do
    store (srv.tasks.create_artifact srv.namespace id (storage_of art))
    store_artifacts id arts

  -- What `handleTasksSend` does with the result of the skill.
  unfoldable pub finish_send : Time → SkillOutcome Payload S → Outcome (Task Payload) × S
  finish_send now (some e, task, s) =
      let failed_task = (transition now task_failed task).1 in
      (do
        attempt (srv.tasks.update_task srv.namespace (task_to_storage srv.a2a_json now failed_task))
        pure failed_task)
        s
  finish_send now (none, task, s) =
      let (moved, completed_task) = transition now task_completed task in
      (do
        guard moved transition_failed
        store_artifacts task.id task.artifacts
        store
            (srv.tasks.update_task srv.namespace (task_to_storage srv.a2a_json now completed_task))
        pure completed_task)
        s

  -- The skill, from a task that was stored.
  unfoldable pub work : Time → Text → TaskParams Payload → Task Payload → Handler S (Task Payload)
  work now auth_agent req task s =
      let (moved, working_task) = transition now task_working task in
      (do
        guard moved transition_failed
        λ s'. finish_send now (execute_skill srv now auth_agent working_task req.message s'))
        s

  unfoldable pub handle_tasks_send :
      Time → Text → Option (TaskParams Payload) → Handler S (Task Payload)
  handle_tasks_send now auth_agent none s = (fail invalid_params, s)
  handle_tasks_send now auth_agent (some req) s =
      if text_eq req.id []
      then (fail missing_id, s)
      else (do
        store (
            srv.tasks.create_task srv.namespace (
              task_to_storage srv.a2a_json now
                (new_task srv.a2a_json now req.id req.session_id srv.namespace)))
        store
            (srv.tasks.append_task_history srv.namespace req.id (pos 0) (user_message req.message))
        work now auth_agent req (new_task srv.a2a_json now req.id req.session_id srv.namespace))
          s

  -- An artifact as tasks/get reads it back: its index and flags are left out.
  abbrev read_back : A2aArtifact Payload → Artifact Payload
  read_back a = record {
    name = a.name;
    description = a.description;
    parts = srv.a2a_json.decode_parts a.parts;
    index = pos 0;
    append = false;
    last_chunk = false;
  }

  abbrev with_artifacts :
      Task Payload → Result (List (A2aArtifact Payload)) → Outcome (Task Payload)
  with_artifacts task (err e) = fail (failed_to_store e)
  with_artifacts task (ok arts) = done (record task { artifacts = map read_back arts })

  abbrev answer_get :
      Result (A2aTask Payload) → Result (List (A2aArtifact Payload)) → Outcome (Task Payload)
  answer_get (err e) arts = fail no_such_task
  answer_get (ok st) arts = with_artifacts (storage_to_task srv.a2a_json st) arts

  -- The decoded parameter is the id.
  unfoldable pub handle_tasks_get : Option Text → Handler S (Task Payload)
  handle_tasks_get none s = (fail invalid_params, s)
  handle_tasks_get (some id) s = if text_eq id [] then (fail missing_id, s) else (
    answer_get (srv.tasks.get_task srv.namespace id s) (srv.tasks.get_artifacts srv.namespace id s),
    s,
  )

  unfoldable pub is_terminal : TaskState → Bool
  is_terminal st =
      state_eq st task_completed || state_eq st task_failed || state_eq st task_canceled

  abbrev pub release_claim : Time → Text → Handler S (Unit {0})
  release_claim now [] = pure tt
  release_claim now (c ∷ claim_id) =
      attempt (Client.release srv.json srv.log srv.namespace now (c ∷ claim_id) outcome_abandoned)

  abbrev pub cancel_found : Time → Result (A2aTask Payload) → Handler S (Task Payload)
  cancel_found now (err e) s = (fail no_such_task, s)
  cancel_found now (ok st) s =
      if is_terminal st.state
      then (fail (terminal_state st.state), s)
      else (let (moved, task) = transition now task_canceled (storage_to_task srv.a2a_json st) in
          (do
            release_claim now st.claim_id
            guard moved (terminal_state st.state)
            store (srv.tasks.update_task srv.namespace (task_to_storage srv.a2a_json now task))
            pure task)
            s)

  unfoldable pub handle_tasks_cancel : Time → Option Text → Handler S (Task Payload)
  handle_tasks_cancel now none s = (fail invalid_params, s)
  handle_tasks_cancel now (some id) s =
      if text_eq id []
      then (fail missing_id, s)
      else cancel_found now (srv.tasks.get_task srv.namespace id s) s
