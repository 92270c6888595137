-- ===== src/Memory/Tasks.antt =====
-- internal/memory/memory.go: A2A tasks, their histories and artifacts.
use hearsay.Base.{List, [], ◌∷◌, ◌++◌, Option, none, some, take, length, if◌then◌else◌, ◌&&◌}
use hearsay.Base.Int.{ℤ, pos, pos_part, ltb_ℤ}
use hearsay.Base.Text.{Text}
use hearsay.Provider.{
  A2aTask, A2aMessage, A2aArtifact, Result, ok, err, task_exists, task_not_found,
}
use hearsay.Memory.{Provider, update, is_some, task_key}

module _ {Payload : Type 0} where
  unfoldable pub create_task :
      Text → A2aTask Payload → Provider Payload → Result (Unit {0}) × Provider Payload
  create_task ns task p =
      let key = task_key ns task.id in
      if is_some (p.a2a_tasks key)
      then (err (task_exists task.id), p)
      else (ok tt, record p { a2a_tasks = update key (some task) p.a2a_tasks })

  abbrev found_task : Text → Option (A2aTask Payload) → Result (A2aTask Payload)
  found_task id none = err (task_not_found id)
  found_task id (some task) = ok task

  unfoldable pub get_task : Text → Text → Provider Payload → Result (A2aTask Payload)
  get_task ns id p = found_task id (p.a2a_tasks (task_key ns id))

  unfoldable pub update_task :
      Text → A2aTask Payload → Provider Payload → Result (Unit {0}) × Provider Payload
  update_task ns task p =
      let key = task_key ns task.id in
      if is_some (p.a2a_tasks key)
      then (ok tt, record p { a2a_tasks = update key (some task) p.a2a_tasks })
      else (err (task_not_found task.id), p)

  -- The sequence number is not looked at.
  unfoldable pub append_task_history :
      Text → Text → ℤ → A2aMessage Payload → Provider Payload → Result (Unit {0}) × Provider Payload
  append_task_history ns id seq msg p =
      let key = task_key ns id in
      (ok tt, record p { a2a_history = update key (p.a2a_history key ++ (msg ∷ [])) p.a2a_history })

  unfoldable pub get_task_history :
      Text → Text → ℤ → Provider Payload → Result (List (A2aMessage Payload))
  get_task_history ns id limit p =
      let hist = p.a2a_history (task_key ns id) in
      ok (
        if ltb_ℤ (pos 0) limit && ltb_ℤ limit (pos (length hist))
        then take (pos_part limit) hist
        else hist)

  unfoldable pub create_artifact :
      Text → Text → A2aArtifact Payload → Provider Payload → Result (Unit {0}) × Provider Payload
  create_artifact ns id art p =
      let key = task_key ns id in
      (
        ok tt,
        record p { a2a_artifacts = update key (p.a2a_artifacts key ++ (art ∷ [])) p.a2a_artifacts },
      )

  unfoldable pub get_artifacts :
      Text → Text → Provider Payload → Result (List (A2aArtifact Payload))
  get_artifacts ns id p = ok (p.a2a_artifacts (task_key ns id))
