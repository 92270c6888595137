-- ===== src/A2a/Fitting.antt =====
-- The executor never waits for its reader (internal/a2a/task_executor.go).
use hearsay.Base.{
  ℕ, suc, ◌≤◌, ◌<◌, Bool, true, false, List, [], ◌∷◌, none, some, length, arith, Bool-cases,
  List-cases, inl, inr,
}
use hearsay.Base.Int.{Time}
use hearsay.Base.Text.{Text}
use hearsay.Provider.{task_working, task_completed, task_failed}
use hearsay.A2a.Task.{Message, Task, transition_failed, task_cancelled, transition}
use hearsay.A2a.Skills.{Server, SkillOutcome, execute_skill}
use hearsay.A2a.Streaming.{
  TaskEvent, status_event, artifact_event, done_event, error_event, sent, channel_size, outputs,
  events_behind_skill, start_task_execution,
}

module _ {Payload : Type 0} where
  length-sent :
      (b : Bool) (ev : TaskEvent Payload) (rest : List (TaskEvent Payload)) (n : ℕ)
      → length rest ≤ n
      → length (sent b ev rest) ≤ suc n
  length-sent true ev rest n h = omega arith
  length-sent false ev rest n h = omega arith

module _ {Payload S : Type 0} (srv : Server Payload S) (sends : ℕ → Bool) (now : Time) where
  length-outputs :
      (task : Task Payload) (rest : List (TaskEvent Payload)) (n : ℕ)
      → length rest ≤ n
      → length (outputs srv sends now task rest) ≤ suc n
  length-outputs task rest n h = elim (List-cases task.artifacts) [
    | inl e ↦ rw e (omega arith)
    | inr (art, arts, e) ↦ rw e (
        length-sent (sends 3) (artifact_event (record task { artifacts = art ∷ arts }) (art ∷ arts))
          rest n h)
  ]

  length-events_behind_skill :
      (out : SkillOutcome Payload S) → length (events_behind_skill srv sends now out).0 ≤ 3
  unfolding events_behind_skill
  length-events_behind_skill (some e, task, s) = omega (
    arith,
    length-sent (sends 2) (error_event e (transition now task_failed task).1) [] 0 (omega arith),
  )
  length-events_behind_skill (none, task, s) =
      elim (Bool-cases (transition now task_completed task).0) [
        | inl e ↦
            (let ended = (transition now task_completed task).1 in
              rw e (
                length-outputs task _ 2 (
                  length-sent (sends 4) (status_event ended) _ 1
                    (length-sent (sends 5) (done_event ended) [] 0 (omega arith)))))
        | inr e ↦ rw e (
            length-outputs task _ 2 (
              omega (
                arith,
                length-sent (sends 4) (error_event transition_failed task) [] 0 (omega arith),
              )))
      ]

  -- However the sends of the execution of a task go, it sends fewer events than the channel has room
  -- for, so that it comes to its end also where nobody reads them.
  pub execution_fits :
      (cancelled : Bool) (auth_agent : Text) (task : Task Payload) (msg : Message Payload) (s : S)
      → length (start_task_execution srv sends now cancelled auth_agent task msg s).0 < channel_size
  unfolding start_task_execution
  execution_fits cancelled auth_agent task msg s =
      let working = (transition now task_working task).1 in
      let behind = length-events_behind_skill (execute_skill srv now auth_agent working msg s) in
      elim (Bool-cases (sends 0)) [
        | inr e ↦ rw e (omega arith)
        | inl e ↦ elim (Bool-cases (transition now task_working task).0) [
          | inr m ↦
              rw (e, m)
                (omega (
                  arith,
                  length-sent (sends 1) (error_event transition_failed task) [] 0 (omega arith),
                ))
          | inl m ↦ elim (Bool-cases (sends 1)) [
            | inr f ↦ rw (e, m, f) (omega arith)
            | inl f ↦ elim (Bool-cases cancelled) [
              | inl c ↦
                  rw (e, m, f, c)
                    (omega (
                      arith,
                      length-sent (sends 2)
                          (error_event task_cancelled (transition now task_failed working).1) [] 0
                          (omega arith),
                    ))
              | inr c ↦ rw (e, m, f, c) (omega (arith, behind))
            ]
          ]
        ]
      ]
