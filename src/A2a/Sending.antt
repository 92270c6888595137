-- ===== src/A2a/Sending.antt =====
-- What tasks/send and tasks/cancel do to the stored tasks, over the in-memory provider
-- (internal/a2a/handler_tasks.go, internal/memory/memory.go).
use hearsay.Base.{◌≡◌, refl, sym, ◌∙◌, ◌≢◌, ◌⊎◌, inl, inr, Bool, true, List, [], ◌∷◌, none, some}
use hearsay.Base.Int.{ℤ, Time}
use hearsay.Base.Text.{Text, text_eq_refl, text_eq-false}
use hearsay.Claims.{Outcome}
use hearsay.Provider.{
  task_working, task_completed, task_failed, MailboxMessage, MailboxType, A2aTask, Json, ok,
}
use hearsay.Memory.{Provider, is_some, task_key}
use hearsay.Memory.Tasks.{create_task, get_task, update_task, append_task_history, create_artifact}
use hearsay.A2a.Task.{
  Artifact, Task, A2aJson, terminal_state, allowed_from, state_eq, transition, new_task,
  task_to_storage,
}
use hearsay.A2a.Skills.{Server, SkillOutcome, execute_skill}
use hearsay.A2a.Handlers.{
  Outcome as Reply, done, fail, TaskParams, storage_of, store_artifacts, finish_send, work,
  handle_tasks_send, is_terminal, handle_tasks_cancel,
}
use hearsay.A2a.Quiet.{memory_server, execute_skill-Quiet}

module _ {Payload : Type 0} (json : Json Payload) (a2a_json : A2aJson Payload) (decimal : ℤ → Text)
    (path_match : Text → Text → Bool) (sort_latest : List MailboxMessage → List MailboxMessage)
    (outcome_of : Text → Outcome) (mailbox_type_of : Text → MailboxType) (ns : Text) where
  -- The A2A server over the in-memory provider.
  abbrev pub srv : Server Payload (Provider Payload)
  srv = memory_server json a2a_json decimal path_match sort_latest outcome_of mailbox_type_of ns

  pub transition-working :
      (now : Time) (task : Task Payload)
      → task.state ≡ task_working
      → (transition now task_failed task
          ≡ (true, record task { state = task_failed; status_time = now }))
        × (transition now task_completed task
            ≡ (true, record task { state = task_completed; status_time = now }))
  unfolding transition allowed_from state_eq
  transition-working now task h = rw h (refl, refl)

  pub store_artifacts-a2a_tasks :
      (id : Text) (arts : List (Artifact Payload)) (p : Provider Payload)
      → ((store_artifacts srv id arts p).0 ≡ done tt)
        × ((store_artifacts srv id arts p).1.a2a_tasks ≡ p.a2a_tasks)
  unfolding store_artifacts create_artifact
  store_artifacts-a2a_tasks id [] p = (refl, refl)
  store_artifacts-a2a_tasks id (art ∷ arts) p =
      store_artifacts-a2a_tasks id arts (create_artifact ns id (storage_of srv art) p).1

  -- The request ended in a completed or a failed task, and that state is stored.
  pub record Settled (key : Text) (out : Reply (Task Payload) × Provider Payload) : Type 0 where
    pub task : Task Payload
    pub entry : A2aTask Payload
    pub answer : out.0 ≡ done task
    pub ended : (task.state ≡ task_completed) ⊎ (task.state ≡ task_failed)
    pub kept : out.1.a2a_tasks key ≡ some entry
    pub same : entry.state ≡ task.state

  pub update_task-known :
      (task : A2aTask Payload) (p : Provider Payload)
      → is_some (p.a2a_tasks (task_key ns task.id)) ≡ true
      → ((update_task ns task p).0 ≡ ok tt)
        × ((update_task ns task p).1.a2a_tasks (task_key ns task.id) ≡ some task)
  unfolding update_task
  update_task-known task p h = rw (h, text_eq_refl (task_key ns task.id)) (refl, refl)

  finish_send-Settled :
      (now : Time) (out : SkillOutcome Payload (Provider Payload))
      → out.1.state ≡ task_working
      → is_some (out.2.a2a_tasks (task_key ns out.1.id)) ≡ true
      → Settled (task_key ns out.1.id) (finish_send srv now out)
  unfolding finish_send task_to_storage
  finish_send-Settled now (some e, task, s) h k =
      let over : Task Payload = record task { state = task_failed; status_time = now } in
      let known = update_task-known (task_to_storage a2a_json now over) s k in
      rw ((transition-working now task h).0) (record {
        task = over;
        entry = task_to_storage a2a_json now over;
        answer = refl;
        ended = inr refl;
        kept = known.1;
        same = refl;
      })
  finish_send-Settled now (none, task, s) h k =
      let over : Task Payload = record task { state = task_completed; status_time = now } in
      let arts = store_artifacts-a2a_tasks task.id task.artifacts s in
      let s' = (store_artifacts srv task.id task.artifacts s).1 in
      let known = update_task-known (task_to_storage a2a_json now over) s' (rw arts.1 k) in
      rw ((transition-working now task h).1, arts.0)
        (record {
          task = over;
          entry = task_to_storage a2a_json now over;
          answer = rw known.0 refl;
          ended = inl refl;
          kept = rw known.0 known.1;
          same = refl;
        })

  finish_send-Settled_at :
      (now : Time) (id : Text) (out : SkillOutcome Payload (Provider Payload))
      → out.1.id ≡ id
      → out.1.state ≡ task_working
      → is_some (out.2.a2a_tasks (task_key ns id)) ≡ true
      → Settled (task_key ns id) (finish_send srv now out)
  finish_send-Settled_at now id out e h k = rw (sym e) (finish_send-Settled now out h (rw e k))

  work-Settled :
      (now : Time) (auth : Text) (req : TaskParams Payload) (p : Provider Payload)
      → is_some (p.a2a_tasks (task_key ns req.id)) ≡ true
      → Settled
          (task_key ns req.id)
          (work srv now auth req (new_task a2a_json now req.id req.session_id ns) p)
  unfolding work new_task transition allowed_from state_eq
  work-Settled now auth req p k =
      let working : Task Payload = record (new_task a2a_json now req.id req.session_id ns) {
        state = task_working;
        status_time = now;
      } in
      let quiet =
        execute_skill-Quiet json a2a_json decimal path_match sort_latest outcome_of mailbox_type_of
          ns now auth working req.message p in
      let out = execute_skill srv now auth working req.message p in
      finish_send-Settled_at now req.id out quiet.id quiet.state (rw quiet.tasks k)

  -- Over the in-memory provider, tasks/send with an id that is not empty and not taken answers
  -- with a completed or a failed task, whatever the skill and the log do, and that state is what
  -- is stored under the id.
  pub send_settles :
      (now : Time) (auth : Text) (req : TaskParams Payload) (p : Provider Payload)
      → req.id ≢ []
      → p.a2a_tasks (task_key ns req.id) ≡ none
      → Settled (task_key ns req.id) (handle_tasks_send srv now auth (some req) p)
  unfolding handle_tasks_send create_task append_task_history new_task task_to_storage
  send_settles now auth req p named fresh =
      rw (text_eq-false req.id named, fresh)
        (work-Settled now auth req _ (rw (text_eq_refl (task_key ns req.id)) refl))

  -- A cancel in a state that stores the task as the request left it.
  pub cancel-Settled :
      (later : Time) (id : Text) (out : Reply (Task Payload) × Provider Payload)
      (p : Provider Payload)
      → id ≢ []
      → Settled (task_key ns id) out
      → p.a2a_tasks (task_key ns id) ≡ out.1.a2a_tasks (task_key ns id)
      → ((handle_tasks_cancel srv later (some id) p).0 ≡ fail (terminal_state task_completed)
          ⊎ (handle_tasks_cancel srv later (some id) p).0 ≡ fail (terminal_state task_failed))
        × ((handle_tasks_cancel srv later (some id) p).1 ≡ p)
  unfolding handle_tasks_cancel get_task is_terminal state_eq
  cancel-Settled later id out p named h still =
      let kept : p.a2a_tasks (task_key ns id) ≡ some h.entry = still ∙ h.kept in
      elim h.ended [
        | inl e ↦ rw (text_eq-false id named, kept, h.same, e) (inl refl, refl)
        | inr e ↦ rw (text_eq-false id named, kept, h.same, e) (inr refl, refl)
      ]
