-- ===== src/Sqlite/Storing.antt =====
-- Tasks that are stored in SQLite and read back (internal/sqlite/sqlite.go).
use hearsay.Base.{
  ℕ, ◌≡◌, refl, sym, ap, ◌∙◌, Bool, false, List, [], ◌∷◌, ◌++◌, any, map, filter, filter-append,
  arith, Bool-cases, inl, inr,
}
use hearsay.Base.Text.{Text, text_eq, text_eq_refl, eq_of_text_eq}
use hearsay.Provider.{A2aTask, ok}
use hearsay.Sql.{insert_row, update_where}
use hearsay.Sqlite.{Tables}
use hearsay.Sqlite.Tasks.{is_task, updated, create_task, get_task, update_task}

text_eq_sym : (a b : Text) → text_eq a b ≡ text_eq b a
text_eq_sym a b = elim (Bool-cases (text_eq a b)) [
  | inl e ↦ rw (eq_of_text_eq a b e) refl
  | inr e ↦ elim (Bool-cases (text_eq b a)) [
    | inl f ↦ rw (eq_of_text_eq b a f) refl
    | inr f ↦ e ∙ sym f
  ]
]

module _ {Payload : Type 0} where
  -- The id of a task is taken, in whatever namespace.
  abbrev pub is_taken : Text → Tables Payload → Bool
  is_taken id t = any (λ (row : A2aTask Payload). text_eq id row.id) t.a2a_tasks

  none_found :
      (ns id : Text) (rows : List (A2aTask Payload))
      → any (λ (row : A2aTask Payload). text_eq id row.id) rows ≡ false
      → filter (is_task ns id) rows ≡ []
  none_found ns id [] h = refl
  none_found ns id (row ∷ rows) h =
      let flipped : text_eq row.id id ≡ text_eq id row.id = text_eq_sym row.id id in
      let other : is_task ns id row ≡ false = ground arith in
      rw other (none_found ns id rows (ground arith))

  -- An update keeps the columns by which a row is found.
  found-updated :
      (ns id : Text) (next : A2aTask Payload) (rows : List (A2aTask Payload))
      → filter (is_task ns id) (update_where (is_task ns id) (updated next) rows)
        ≡ map (updated next) (filter (is_task ns id) rows)
  unfolding update_where
  found-updated ns id next [] = refl
  found-updated ns id next (row ∷ rows) = elim (Bool-cases (is_task ns id row)) [
    | inl e ↦
        rw (e, e)
          (ap (λ (l : List (A2aTask Payload)). updated next row ∷ l)
            (found-updated ns id next rows))
    | inr e ↦ rw (e, e) (found-updated ns id next rows)
  ]

  found-created :
      (ns : Text) (task : A2aTask Payload) (t : Tables Payload)
      → is_taken task.id t ≡ false
      → filter (is_task ns task.id) (t.a2a_tasks ++ (record task { namespace = ns } ∷ []))
        ≡ record task { namespace = ns } ∷ []
  found-created ns task t free =
      filter-append (is_task ns task.id) t.a2a_tasks (record task { namespace = ns } ∷ [])
      ∙ rw (none_found ns task.id t.a2a_tasks free, text_eq_refl ns, text_eq_refl task.id) refl

  -- Where the engine does not refuse the statements, and no task of any namespace has its id, a task
  -- is created and read back as it was given, but for its namespace. After an update it is read
  -- back with its own id, namespace and time of creation, and with all else as in the update.
  pub task_round_trip :
      (refuses : ℕ → Bool) (ns : Text) (task next : A2aTask Payload) (t : Tables Payload)
      → refuses 0 ≡ false
      → is_taken task.id t ≡ false
      → next.id ≡ task.id
      → let stored = create_task refuses ns task t in
        (stored.0 ≡ ok tt)
        × ((get_task refuses ns task.id stored.1 ≡ ok (record task { namespace = ns }))
            × (get_task refuses ns task.id (update_task refuses ns next stored.1).1
                ≡ ok (record {
                  id = task.id;
                  session_id = next.session_id;
                  state = next.state;
                  status_msg = next.status_msg;
                  status_time = next.status_time;
                  claim_id = next.claim_id;
                  namespace = ns;
                  metadata = next.metadata;
                  created_at = task.created_at;
                })))
  unfolding create_task get_task update_task insert_row
  task_round_trip refuses ns task next t works free same =
      let inserted = t.a2a_tasks ++ (record task { namespace = ns } ∷ []) in
      (
        rw (works, free) refl,
        (
          rw (works, free, found-created ns task t free) refl,
          rw
              (
                works,
                free,
                same,
                found-updated ns task.id next inserted,
                found-created ns task t free,
              )
              refl,
        ),
      )
