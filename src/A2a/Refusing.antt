-- ===== src/A2a/Refusing.antt =====
-- What becomes of a task after tasks/send has answered, over the in-memory provider
-- (internal/a2a/handler_tasks.go, internal/memory/memory.go).
use mathlib.Core.Bool.{false≢true}
use hearsay.Base.{
  ◌≡◌, refl, sym, ◌∙◌, ◌≢◌, ◌⊎◌, inl, inr, Bool, true, false, Bool-cases, List, [], ◌∷◌, Option,
  none, some,
}
use hearsay.Base.Int.{ℤ, Time}
use hearsay.Base.Text.{Text, text_eq}
use hearsay.Claims.{Outcome}
use hearsay.Provider.{
  TaskState, task_completed, task_failed, MailboxMessage, MailboxType, A2aTask, Json,
}
use hearsay.Memory.{Provider, task_key}
use hearsay.A2a.Task.{A2aJson, terminal_state, state_eq}
use hearsay.A2a.Skills.{Server}
use hearsay.A2a.Handlers.{
  fail, TaskParams, handle_tasks_send, handle_tasks_get, is_terminal, handle_tasks_cancel,
}
use hearsay.A2a.Sending.{srv, send_settles, cancel-Settled}
use hearsay.A2a.Touching.{IsKeyed, Touches, Touches-IsKeyed}
use hearsay.A2a.Lasting.{send-Touches, cancel-Touches}

-- A request for a task, with the time of the call, and its decoded parameters.
pub data Request (Payload : Type 0) : Type 0 where
  send_request : Time → Text → Option (TaskParams Payload) → Request Payload
  get_request : Option Text → Request Payload
  cancel_request : Time → Option Text → Request Payload

some_inj : {A : Type 0} (a b : A) → Path (Option A) (some a) (some b) → a ≡ b
some_inj a b e = cc

some-ne-none : {A : Type 0} (a : A) → Path (Option A) (some a) none → ⊥
some-ne-none a e = cc

module _ {Payload : Type 0} (json : Json Payload) (a2a_json : A2aJson Payload) (decimal : ℤ → Text)
    (path_match : Text → Text → Bool) (sort_latest : List MailboxMessage → List MailboxMessage)
    (outcome_of : Text → Outcome) (mailbox_type_of : Text → MailboxType) (ns : Text) where
  abbrev server : Server Payload (Provider Payload)
  server = srv json a2a_json decimal path_match sort_latest outcome_of mailbox_type_of ns

  -- The provider behind a request, and behind a series of them.
  abbrev pub behind : Request Payload → Provider Payload → Provider Payload
  behind (send_request now auth req) p = (handle_tasks_send server now auth req p).1
  behind (get_request id) p = (handle_tasks_get server id p).1
  behind (cancel_request now id) p = (handle_tasks_cancel server now id p).1

  abbrev pub behind_all : List (Request Payload) → Provider Payload → Provider Payload
  behind_all [] p = p
  behind_all (r ∷ rs) p = behind_all rs (behind r p)

  -- A task that has ended is stored under the id, and the tasks are stored under their ids.
  record Ended (id : Text) (entry : A2aTask Payload) (p : Provider Payload) : Type 0 where
    found : p.a2a_tasks (task_key ns id) ≡ some entry
    keyed : IsKeyed ns p.a2a_tasks

  same-Ended :
      (id : Text) (entry : A2aTask Payload) (p q : Provider Payload)
      → q.a2a_tasks ≡ p.a2a_tasks
      → Ended id entry p
      → Ended id entry q
  same-Ended id entry p q e h = record { found = rw e h.found; keyed = rw e h.keyed }

  touched-Ended :
      (id j : Text) (entry : A2aTask Payload) (p q : Provider Payload)
      → j ≢ id
      → Touches ns j p.a2a_tasks q.a2a_tasks
      → Ended id entry p
      → Ended id entry q
  touched-Ended id j entry p q n t h = record {
    found = t.others id n ∙ h.found;
    keyed = Touches-IsKeyed ns j p.a2a_tasks q.a2a_tasks t h.keyed;
  }

  get-same :
      (j : Text) (p : Provider Payload)
      → (handle_tasks_get server (some j) p).1.a2a_tasks ≡ p.a2a_tasks
  unfolding handle_tasks_get
  get-same j p = elim (Bool-cases (text_eq j [])) [ inl e ↦ rw e refl | inr e ↦ rw e refl ]

  -- The task under the id has ended, so that it is not one which goes on.
  Ended-not_going :
      (id j : Text) (entry st : A2aTask Payload) (p : Provider Payload)
      → j ≡ id
      → Ended id entry p
      → p.a2a_tasks (task_key ns j) ≡ some st
      → is_terminal server entry.state ≡ true
      → is_terminal server st.state ≡ false
      → ⊥
  Ended-not_going id j entry st p e h at_j over going =
      let same : entry ≡ st = some_inj entry st (sym h.found ∙ (rw e at at_j)) in
      false≢true (sym going ∙ (rw same at over))

  behind-Ended :
      (id : Text) (entry : A2aTask Payload) (r : Request Payload) (p : Provider Payload)
      → is_terminal server entry.state ≡ true
      → Ended id entry p
      → Ended id entry (behind r p)
  unfolding handle_tasks_send handle_tasks_cancel handle_tasks_get
  behind-Ended id entry (send_request now auth none) p over h = h
  behind-Ended id entry (send_request now auth (some req)) p over h =
      elim (send-Touches json a2a_json decimal path_match sort_latest outcome_of mailbox_type_of ns
        now auth req p h.keyed) [
          | inl same ↦ same-Ended id entry p _ same h
          | inr (free, t) ↦
              touched-Ended id req.id entry p _
                (λ e. some-ne-none entry (sym h.found ∙ (rw e at free))) t h
        ]
  behind-Ended id entry (get_request none) p over h = h
  behind-Ended id entry (get_request (some j)) p over h = same-Ended id entry p _ (get-same j p) h
  behind-Ended id entry (cancel_request now none) p over h = h
  behind-Ended id entry (cancel_request now (some j)) p over h =
      elim (cancel-Touches json a2a_json decimal path_match sort_latest outcome_of mailbox_type_of
        ns now j p h.keyed) [
          | inl same ↦ same-Ended id entry p _ same h
          | inr (st, at_j, going, t) ↦
              touched-Ended id j entry p _
                (λ e. Ended-not_going id j entry st p e h at_j over going) t h
        ]

  behind_all-Ended :
      (id : Text) (entry : A2aTask Payload) (rs : List (Request Payload)) (p : Provider Payload)
      → is_terminal server entry.state ≡ true
      → Ended id entry p
      → Ended id entry (behind_all rs p)
  behind_all-Ended id entry [] p over h = h
  behind_all-Ended id entry (r ∷ rs) p over h =
      behind_all-Ended id entry rs (behind r p) over (behind-Ended id entry r p over h)

  sent-IsKeyed :
      (now : Time) (auth : Text) (req : TaskParams Payload) (p : Provider Payload)
      → IsKeyed ns p.a2a_tasks
      → IsKeyed ns (handle_tasks_send server now auth (some req) p).1.a2a_tasks
  sent-IsKeyed now auth req p k =
      elim (send-Touches json a2a_json decimal path_match sort_latest outcome_of mailbox_type_of ns
        now auth req p k) [
          | inl same ↦ rw same k
          | inr (free, t) ↦ Touches-IsKeyed ns req.id _ _ t k
        ]

  settled-terminal :
      (st : TaskState) → (st ≡ task_completed) ⊎ (st ≡ task_failed) → is_terminal server st ≡ true
  unfolding is_terminal state_eq
  settled-terminal st (inl e) = rw e refl
  settled-terminal st (inr e) = rw e refl

  -- Over the in-memory provider, where each stored task of the namespace stands under its own id,
  -- a task that tasks/send has answered, under an id that was not empty and not taken, is not
  -- canceled any more: whatever tasks/send, tasks/get and tasks/cancel requests are served after
  -- the answer, of this id or of others, tasks/cancel then answers that the task is completed or
  -- failed and changes nothing, so that a claim made by the skill is not released. The requests are
  -- served one after the other: a cancel before the answer, while the skill runs, is not covered.
  pub sent_never_canceled :
      (now later : Time) (auth : Text) (req : TaskParams Payload) (rs : List (Request Payload))
      (p : Provider Payload)
      → req.id ≢ []
      → p.a2a_tasks (task_key ns req.id) ≡ none
      → IsKeyed ns p.a2a_tasks
      → let after = behind_all rs (handle_tasks_send server now auth (some req) p).1 in
        let canceled = handle_tasks_cancel server later (some req.id) after in
        ((canceled.0 ≡ fail (terminal_state task_completed))
          ⊎ (canceled.0 ≡ fail (terminal_state task_failed)))
        × (canceled.1 ≡ after)
  sent_never_canceled now later auth req rs p named fresh k =
      let out = handle_tasks_send server now auth (some req) p in
      let h =
        send_settles json a2a_json decimal path_match sort_latest outcome_of mailbox_type_of ns now
          auth req p named fresh in
      let ended =
        behind_all-Ended req.id h.entry rs out.1 (rw h.same (settled-terminal h.task.state h.ended))
          (record { found = h.kept; keyed = sent-IsKeyed now auth req p k }) in
      cancel-Settled json a2a_json decimal path_match sort_latest outcome_of mailbox_type_of ns
        later req.id out (behind_all rs out.1) named h (ended.found ∙ sym h.kept)
