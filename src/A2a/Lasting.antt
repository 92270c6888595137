-- ===== src/A2a/Lasting.antt =====
-- What the handlers of tasks/send and tasks/cancel do to the stored tasks of other ids, over the
-- in-memory provider (internal/a2a/handler_tasks.go, internal/memory/memory.go).
use hearsay.Base.{
  ◌≡◌, refl, ◌∙◌, ◌⊎◌, inl, inr, Bool, true, false, List, [], ◌∷◌, Option, none, some, arith,
  Bool-cases,
}
use hearsay.Base.Int.{ℤ, Time}
use hearsay.Base.Text.{Text, text_eq, text_eq_refl}
use hearsay.Claims.{Outcome}
use hearsay.Provider.{
  TaskState, task_working, task_completed, task_canceled, MailboxMessage, MailboxType, A2aTask,
  Json, Result, ok, err,
}
use hearsay.Client.{release}
use hearsay.Memory.{Provider, is_some, task_key}
use hearsay.Memory.Log.{append, append_all, append_one}
use hearsay.Memory.Tasks.{create_task, get_task, append_task_history}
use hearsay.A2a.Task.{
  Task, A2aJson, allowed_from, state_eq, transition, new_task, task_to_storage, storage_to_task,
}
use hearsay.A2a.Skills.{Server, SkillOutcome, execute_skill}
use hearsay.A2a.Handlers.{
  done, continue, stored, pure, release_claim, cancel_found, TaskParams, store_artifacts,
  finish_send, work, handle_tasks_send, is_terminal, handle_tasks_cancel,
}
use hearsay.A2a.Quiet.{memory_server, execute_skill-Quiet}
use hearsay.A2a.Sending.{transition-working, store_artifacts-a2a_tasks, update_task-known}
use hearsay.A2a.Touching.{
  Table, IsKeyed, Touches, Touches-IsKeyed, Touches-trans, Touches-refl, put-Touches,
  update_task-Touches_from,
}

transition-id :
    {Payload : Type 0} (now : Time) (to : TaskState) (t : Task Payload)
    → (transition now to t).1.id ≡ t.id
unfolding transition
transition-id now to t = ground arith

option_cases : {A : Type 0} (o : Option A) → ((a : A) × (o ≡ some a)) ⊎ (o ≡ none)
option_cases none = inr refl
option_cases (some a) = inl (a, refl)

module _ {Payload : Type 0} (json : Json Payload) (a2a_json : A2aJson Payload) (decimal : ℤ → Text)
    (path_match : Text → Text → Bool) (sort_latest : List MailboxMessage → List MailboxMessage)
    (outcome_of : Text → Outcome) (mailbox_type_of : Text → MailboxType) (ns : Text) where
  abbrev server : Server Payload (Provider Payload)
  server = memory_server json a2a_json decimal path_match sort_latest outcome_of mailbox_type_of ns

  finish_send-Touches :
      (now : Time) (id : Text) (f : Table Payload) (out : SkillOutcome Payload (Provider Payload))
      → out.1.id ≡ id
      → out.1.state ≡ task_working
      → out.2.a2a_tasks ≡ f
      → is_some (f (task_key ns id)) ≡ true
      → IsKeyed ns f
      → Touches ns id f (finish_send server now out).1.a2a_tasks
  unfolding finish_send task_to_storage
  finish_send-Touches now id f (some e, task, s) same h tasks found k =
      rw
        ((transition-working json a2a_json decimal path_match sort_latest outcome_of mailbox_type_of
          ns now task h).0)
        (update_task-Touches_from ns id _ s f same tasks k)
  finish_send-Touches now id f (none, task, s) same h tasks found k =
      let over : Task Payload = record task { state = task_completed; status_time = now } in
      let arts =
        store_artifacts-a2a_tasks json a2a_json decimal path_match sort_latest outcome_of
          mailbox_type_of ns task.id task.artifacts s in
      let s' = (store_artifacts server task.id task.artifacts s).1 in
      let known =
        update_task-known json a2a_json decimal path_match sort_latest outcome_of mailbox_type_of ns
          (task_to_storage a2a_json now over) s' (rw (arts.1, tasks, same) found) in
      rw
        (
          (transition-working json a2a_json decimal path_match sort_latest outcome_of
              mailbox_type_of ns now task h).1,
          arts.0,
        )
        (rw known.0 (
          update_task-Touches_from ns id (task_to_storage a2a_json now over) s' f same
            (arts.1 ∙ tasks) k))

  work-Touches :
      (now : Time) (auth : Text) (req : TaskParams Payload) (p : Provider Payload)
      → is_some (p.a2a_tasks (task_key ns req.id)) ≡ true
      → IsKeyed ns p.a2a_tasks
      → Touches ns req.id p.a2a_tasks
          (work server now auth req (new_task a2a_json now req.id req.session_id ns) p).1.a2a_tasks
  unfolding work new_task transition allowed_from state_eq
  work-Touches now auth req p found k =
      let working : Task Payload = record (new_task a2a_json now req.id req.session_id ns) {
        state = task_working;
        status_time = now;
      } in
      let quiet =
        execute_skill-Quiet json a2a_json decimal path_match sort_latest outcome_of mailbox_type_of
          ns now auth working req.message p in
      let out = execute_skill server now auth working req.message p in
      finish_send-Touches now req.id p.a2a_tasks out quiet.id quiet.state quiet.tasks found k

  -- tasks/send leaves the tasks alone, or it touches the one id, which was free.
  pub send-Touches :
      (now : Time) (auth : Text) (req : TaskParams Payload) (p : Provider Payload)
      → IsKeyed ns p.a2a_tasks
      → let after = (handle_tasks_send server now auth (some req) p).1 in
        (after.a2a_tasks ≡ p.a2a_tasks)
        ⊎ ((p.a2a_tasks (task_key ns req.id) ≡ none)
            × Touches ns req.id p.a2a_tasks after.a2a_tasks)
  unfolding handle_tasks_send create_task append_task_history new_task task_to_storage
  send-Touches now auth req p k = elim (Bool-cases (text_eq req.id [])) [
    | inl e ↦ rw e (inl refl)
    | inr e ↦ elim (option_cases (p.a2a_tasks (task_key ns req.id))) [
      | inl taken ↦ rw (e, taken.1) (inl refl)
      | inr free ↦
          let entry =
            task_to_storage a2a_json now (new_task a2a_json now req.id req.session_id ns) in
          let created = put-Touches ns entry p.a2a_tasks in
          rw (e, free)
            (inr (
              refl,
              Touches-trans ns req.id _ _ _ created (
                  work-Touches now auth req _ (rw (text_eq_refl (task_key ns req.id)) refl)
                    (Touches-IsKeyed ns req.id _ _ created k)),
            ))
    ]
  ]

  released-a2a_tasks :
      (now : Time) (claim_id : Text) (p : Provider Payload)
      → ((release_claim server now claim_id p).0 ≡ done tt)
        × ((release_claim server now claim_id p).1.a2a_tasks ≡ p.a2a_tasks)
  unfolding release append append_all append_one
  released-a2a_tasks now [] p = (refl, refl)
  released-a2a_tasks now (c ∷ claim_id) p = (refl, refl)

  -- Whether the last call of a handler fails or not, its state is what is left.
  settled_state :
      {A : Type 0} (r : Result (Unit {0})) (x : A) (p : Provider Payload)
      → (continue (stored r) (λ u. pure x) p).1 ≡ p
  settled_state (ok u) x p = refl
  settled_state (err e) x p = refl

  -- A cancel of a task that has not ended.
  cancel_open-Touches :
      (now : Time) (id : Text) (st : A2aTask Payload) (p : Provider Payload)
      → st.id ≡ id
      → is_terminal server st.state ≡ false
      → IsKeyed ns p.a2a_tasks
      → Touches ns id p.a2a_tasks (cancel_found server now (ok st) p).1.a2a_tasks
  unfolding task_to_storage storage_to_task
  cancel_open-Touches now id st p same going k =
      let task = storage_to_task a2a_json st in
      let quiet = released-a2a_tasks now st.claim_id p in
      let p' = (release_claim server now st.claim_id p).1 in
      let touched =
        update_task-Touches_from ns id
          (task_to_storage a2a_json now (transition now task_canceled task).1) p' p.a2a_tasks
          (transition-id now task_canceled task ∙ same) quiet.1 k in
      elim (Bool-cases (transition now task_canceled task).0) [
        | inr e ↦ rw (going, quiet.0, e) (rw (quiet.1) (Touches-refl ns id p.a2a_tasks k))
        | inl e ↦
            rw (going, quiet.0, e)
              (rw (settled_state _ (transition now task_canceled task).1 _) touched)
      ]

  -- tasks/cancel leaves the tasks alone, or it touches the one id, whose task had not ended.
  pub cancel-Touches :
      (now : Time) (id : Text) (p : Provider Payload)
      → IsKeyed ns p.a2a_tasks
      → let after = (handle_tasks_cancel server now (some id) p).1 in
        (after.a2a_tasks ≡ p.a2a_tasks)
        ⊎ ((st : A2aTask Payload) × (p.a2a_tasks (task_key ns id) ≡ some st)
            × (is_terminal server st.state ≡ false)
            × Touches ns id p.a2a_tasks after.a2a_tasks)
  unfolding handle_tasks_cancel get_task
  cancel-Touches now id p k = elim (Bool-cases (text_eq id [])) [
    | inl e ↦ rw e (inl refl)
    | inr e ↦ elim (option_cases (p.a2a_tasks (task_key ns id))) [
      | inr free ↦ rw (e, free) (inl refl)
      | inl (st, found) ↦ elim (Bool-cases (is_terminal server st.state)) [
        | inl over ↦ rw (e, found, over) (inl refl)
        | inr going ↦
            let touched = cancel_open-Touches now id st p (k id st found) going k in
            rw (e, found, going) (inr (st, refl, going, rw going at touched))
      ]
    ]
  ]
