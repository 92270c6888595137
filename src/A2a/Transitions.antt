-- ===== src/A2a/Transitions.antt =====
-- The state machine of tasks (internal/a2a/task.go).
use hearsay.Base.{◌≡◌, refl, ◌↔◌, ◌⊎◌, inl, inr, Bool, true, false, List, [], ◌∷◌, All, arith}
use hearsay.Base.Int.{Time}
use hearsay.Provider.{
  TaskState, task_submitted, task_working, task_input_required, task_completed, task_failed,
  task_canceled,
}
use hearsay.A2a.Task.{Task, state_eq, allowed_from, is_listed_in, transition}

-- The steps that a task may take.
infix 40 ◌⟶◌
pub data ◌⟶◌ : TaskState → TaskState → Type 0 where
  start : task_submitted ⟶ task_working
  ask_early : task_submitted ⟶ task_input_required
  reject : task_submitted ⟶ task_failed
  withdraw : task_submitted ⟶ task_canceled
  ask : task_working ⟶ task_input_required
  complete : task_working ⟶ task_completed
  fail : task_working ⟶ task_failed
  abort : task_working ⟶ task_canceled
  resume : task_input_required ⟶ task_working
  give_up : task_input_required ⟶ task_canceled

ruleset steps = (start, ask_early, reject, withdraw, ask, complete, fail, abort, resume, give_up)

abbrev pub IsTerminal : TaskState → Type 0
IsTerminal s = (s ≡ task_completed) ⊎ (s ≡ task_failed) ⊎ (s ≡ task_canceled)

step_of_allowed : (s t : TaskState) → is_listed_in t (allowed_from s) ≡ true → s ⟶ t
unfolding allowed_from state_eq
step_of_allowed s t h = grind (arith, steps)

allowed_of_step : {s t : TaskState} → s ⟶ t → is_listed_in t (allowed_from s) ≡ true
unfolding allowed_from state_eq
allowed_of_step start = refl
allowed_of_step ask_early = refl
allowed_of_step reject = refl
allowed_of_step withdraw = refl
allowed_of_step ask = refl
allowed_of_step complete = refl
allowed_of_step fail = refl
allowed_of_step abort = refl
allowed_of_step resume = refl
allowed_of_step give_up = refl

module _ {Payload : Type 0} where
  -- `Transition` succeeds exactly along a step of the state machine. It then changes the state and
  -- the time of the status and nothing else, and it changes nothing where it fails.
  pub transition_iff :
      (now : Time) (to : TaskState) (t : Task Payload)
      → (((transition now to t).0 ≡ true) ↔ (t.state ⟶ to))
        × ((transition now to t).0 ≡ true
            → (transition now to t).1 ≡ record t { state = to; status_time = now })
        × ((transition now to t).0 ≡ false → (transition now to t).1 ≡ t)
  unfolding transition
  transition_iff now to t = (
    (λ h. step_of_allowed t.state to (ground arith), λ st. rw (allowed_of_step st)),
    λ h. ground arith,
    λ h. ground arith,
  )

module _ {Payload : Type 0} where
  -- The answers of a series of calls of `Transition` on one task, and the task after them.
  abbrev pub transitions : List (Time × TaskState) → Task Payload → List Bool × Task Payload
  transitions [] t = ([], t)
  transitions ((now, to) ∷ calls) t =
      let (moved, t') = transition now to t in
      let (answers, last) = transitions calls t' in (moved ∷ answers, last)

  terminal-stuck :
      (now : Time) (to : TaskState) (t : Task Payload)
      → IsTerminal t.state
      → transition now to t ≡ (false, t)
  unfolding transition allowed_from state_eq
  terminal-stuck now to t (inl e) = rw e refl
  terminal-stuck now to t (inr (inl e)) = rw e refl
  terminal-stuck now to t (inr (inr e)) = rw e refl

  -- Whatever calls of `Transition` are made on a completed, failed or canceled task, each of them
  -- fails, and the task stays as it is.
  pub terminal_absorbs :
      (calls : List (Time × TaskState)) (t : Task Payload)
      → IsTerminal t.state
      → All (λ answer. answer ≡ false) (transitions calls t).0 × ((transitions calls t).1 ≡ t)
  terminal_absorbs [] t h = (tt, refl)
  terminal_absorbs ((now, to) ∷ calls) t h =
      let (answers, last) = terminal_absorbs calls t h in
      rw (terminal-stuck now to t h) ((refl, answers), last)
