-- ===== src/Tests/Postgres.antt =====
-- The PostgreSQL provider at concrete inputs (internal/postgres/postgres.go).
use hearsay.Base.{ℕ, ◌≡◌, refl, Bool, ◌==◌, List, [], ◌∷◌, length}
use hearsay.Base.Int.{pos, wrap64, ◌+ℤ◌}
use hearsay.Provider.{Message}
use hearsay.Sql.{insert_row, next_of, max_of}
use hearsay.Sqlite.{migrated}
use hearsay.Sqlite.Log.{new_row}
use hearsay.Postgres.{Database, append, in_tx, insert_all, insert_message}
use hearsay.Postgres.Serials.{Appended, append-Appended}
use hearsay.Tests.Fixtures.{Body, claim_message, heartbeat_message, main_ns}

-- An engine that refuses the second insertion of an append.
abbrev third : ℕ → Bool
third n = n == 3

abbrev no_rows_yet : Database Body
no_rows_yet = record { tables = migrated; serial = 6 }

abbrev two_messages : List (Message Body)
two_messages = heartbeat_message ∷ claim_message ∷ []

append-Appended_example :
    Appended third
      (length two_messages)
      no_rows_yet
      (append third (pos 9) main_ns two_messages no_rows_yet)
append-Appended_example = append-Appended third (pos 9) main_ns two_messages no_rows_yet

-- The offset of the row that was rolled back is lost.
lost_offset : (append third (pos 9) main_ns two_messages no_rows_yet).1.serial ≡ 7
unfolding append in_tx insert_all insert_message insert_row next_of max_of new_row migrated ◌+ℤ◌
    wrap64
lost_offset = refl
