-- ===== src/Sqlite/Tasks.antt =====
-- internal/sqlite/sqlite.go: A2A tasks, their histories and artifacts.
-- The keys of the three tables do not name the namespace.
use hearsay.Base.{ℕ, Bool, ◌&&◌, List, map, filter, if◌then◌else◌}
use hearsay.Base.Int.{ℤ, eq_ℤ}
use hearsay.Base.Text.{Text, text_eq}
use hearsay.Provider.{A2aTask, A2aMessage, A2aArtifact, Result, ok, err, provider_failure, no_rows}
use hearsay.Sqlite.{HistoryRow, ArtifactRow, Tables, changes}
use hearsay.Sql.{
  Session, statement, replaced, insert_row, update_where, first_row, order_by, limit_rows,
}

module _ {Payload : Type 0} where
  abbrev with_tasks : Tables Payload → Result (List (A2aTask Payload)) → Result (Tables Payload)
  with_tasks t (ok rows) = ok (record t { a2a_tasks = rows })
  with_tasks t (err e) = err e

  abbrev with_history :
      Tables Payload → Result (List (HistoryRow Payload)) → Result (Tables Payload)
  with_history t (ok rows) = ok (record t { a2a_task_history = rows })
  with_history t (err e) = err e

  abbrev with_artifacts :
      Tables Payload → Result (List (ArtifactRow Payload)) → Result (Tables Payload)
  with_artifacts t (ok rows) = ok (record t { a2a_artifacts = rows })
  with_artifacts t (err e) = err e

  abbrev pub is_task : Text → Text → A2aTask Payload → Bool
  is_task ns id row = text_eq row.namespace ns && text_eq row.id id

  -- The columns that `UpdateTask` sets.
  abbrev pub updated : A2aTask Payload → A2aTask Payload → A2aTask Payload
  updated task row = record row {
    session_id = task.session_id;
    state = task.state;
    status_msg = task.status_msg;
    status_time = task.status_time;
    claim_id = task.claim_id;
    metadata = task.metadata;
  }

  abbrev same_artifact : ArtifactRow Payload → ArtifactRow Payload → Bool
  same_artifact a b =
      text_eq a.task_id b.task_id
      && text_eq a.artifact.name b.artifact.name
      && eq_ℤ a.artifact.index b.artifact.index

  module _ (refuses : ℕ → Bool) where
    unfoldable pub create_task : Text → A2aTask Payload → Session (Tables Payload) (Unit {0})
    create_task ns task = statement refuses 0 (λ t. replaced t (
        with_tasks t
          (insert_row (λ a b. text_eq a.id b.id) (record task { namespace = ns }) t.a2a_tasks)))

    unfoldable pub get_task : Text → Text → Tables Payload → Result (A2aTask Payload)
    get_task ns id t =
        if refuses 0
        then err provider_failure
        else first_row no_rows (filter (is_task ns id) t.a2a_tasks)

    unfoldable pub update_task : Text → A2aTask Payload → Session (Tables Payload) (Unit {0})
    update_task ns task = statement refuses 0 (
        changes (λ t. record t {
          a2a_tasks = update_where (is_task ns task.id) (updated task) t.a2a_tasks;
        }))

    unfoldable pub append_task_history :
        Text → Text → ℤ → A2aMessage Payload → Session (Tables Payload) (Unit {0})
    append_task_history ns id seq msg = statement refuses 0 (λ t. replaced t (
        with_history t (
          insert_row (λ a b. text_eq a.task_id b.task_id && eq_ℤ a.seq b.seq)
            (record { task_id = id; seq = seq; message = msg }) t.a2a_task_history)))

    unfoldable pub get_task_history :
        Text → Text → ℤ → Tables Payload → Result (List (A2aMessage Payload))
    get_task_history ns id limit t =
        if refuses 0
        then err provider_failure
        else ok (
            map (λ (h : HistoryRow Payload). h.message)
              (limit_rows limit (
                order_by (λ (h : HistoryRow Payload). h.seq)
                  (filter (λ (h : HistoryRow Payload). text_eq h.task_id id) t.a2a_task_history))))

    unfoldable pub create_artifact :
        Text → Text → A2aArtifact Payload → Session (Tables Payload) (Unit {0})
    create_artifact ns id art = statement refuses 0 (λ t. replaced t (
        with_artifacts t
          (insert_row same_artifact (record { task_id = id; artifact = art }) t.a2a_artifacts)))

    -- `by_name` stands for ORDER BY name, index_num.
    unfoldable pub get_artifacts :
        (List (A2aArtifact Payload) → List (A2aArtifact Payload))
        → Text
        → Text
        → Tables Payload
        → Result (List (A2aArtifact Payload))
    get_artifacts by_name ns id t =
        if refuses 0
        then err provider_failure
        else ok (
            by_name (
              map (λ (a : ArtifactRow Payload). a.artifact)
                (filter (λ (a : ArtifactRow Payload). text_eq a.task_id id) t.a2a_artifacts)))
