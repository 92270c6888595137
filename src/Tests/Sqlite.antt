-- ===== src/Tests/Sqlite.antt =====
-- The SQLite provider at concrete inputs (internal/sqlite/sqlite.go).
use hearsay.Base.{ℕ, ◌≡◌, refl, Bool, false, ◌==◌, List, [], ◌∷◌, ◌++◌, some, arith, filter, length}
use hearsay.Base.Int.{pos, zero_time, seconds, ◌+ℤ◌, wrap64}
use hearsay.Base.Text.{codes, text_eq}
use hearsay.Claims.{Claim, resource_matches_pattern}
use hearsay.Provider.{
  Message, A2aTask, task_submitted, task_completed, type_eq, msg_claim, msg_heartbeat, Result, ok,
}
use hearsay.Active.{filter_active_claims}
use hearsay.Memory.{Provider, new}
use hearsay.Memory.Log as Memory_log
use hearsay.Memory.Queries.{from_cursor}
use hearsay.Sql.{in_tx, insert_row, next_of, max_of}
use hearsay.Sqlite.{Row, Tables, migrated}
use hearsay.Sqlite.Log.{
  append, insert_all, new_row, query, active_claims, rows_in, expired_offsets, release_expired,
  message_of,
}
use hearsay.Sqlite.Tasks.{create_task, get_task, update_task}
use hearsay.Sqlite.Refining.{Holds}
use hearsay.Sqlite.Simulation.{append-Holds}
use hearsay.Sqlite.Reading.{query-Holds}
use hearsay.Sqlite.Claims.{no_heartbeat, active_claims-Holds}
use hearsay.Sqlite.Storing.{task_round_trip}
use hearsay.Sqlite.Expiring.{expired_offset_reused}
use hearsay.Tests.Fixtures.{
  Body, claim_body, sample_json, no_glob, write_claim, claim_message, heartbeat_message,
  release_message, main_ns,
}

-- An engine that refuses nothing, and one that refuses the second insertion of an append.
abbrev never : ℕ → Bool
never n = false

abbrev fifth : ℕ → Bool
fifth n = n == 5

works : (n : ℕ) → never n ≡ false
works n = refl

abbrev no_tables : Tables Body
no_tables = migrated

abbrev no_memory : Provider Body
no_memory = new

empty-Holds : Holds main_ns no_tables no_memory
unfolding new migrated
empty-Holds = record {
  log = refl;
  numbered = record { counter = refl; numbered = tt };
  seqs = refl;
}

abbrev untimed : Message Body → Message Body
untimed m = record m { timestamp = zero_time }

abbrev untimed_batch : List (Message Body)
untimed_batch = untimed heartbeat_message ∷ untimed claim_message ∷ untimed (release_message 9) ∷ []

-- The failed append leaves no row.
refused_append : (append fifth (pos 9) main_ns untimed_batch no_tables).1 ≡ no_tables
unfolding append in_tx insert_all insert_row next_of max_of new_row text_eq ◌+ℤ◌ wrap64 migrated
refused_append = refl

append-Holds_example :
    ((append never (pos 9) main_ns untimed_batch no_tables).0 ≡ ok tt)
    × Holds main_ns
        (append never (pos 9) main_ns untimed_batch no_tables).1
        (Memory_log.append (pos 9) main_ns untimed_batch no_memory).1
unfolding new
append-Holds_example =
    append-Holds never works (pos 9) main_ns untimed_batch no_tables no_memory empty-Holds
      (refl, (refl, (refl, tt))) (omega arith)

abbrev held_row : Row Body
held_row = record {
  namespace = main_ns;
  offset = pos 1;
  seq = some (pos 1);
  type = msg_heartbeat;
  agent_id = codes "alice";
  payload = claim_body write_claim;
  timestamp = pos 10;
}

abbrev last_row : Row Body
last_row = record held_row { offset = pos 2; seq = some (pos 2); type = msg_claim }

abbrev two_rows : Tables Body
two_rows = record no_tables { messages = held_row ∷ last_row ∷ [] }

abbrev two_held : Provider Body
two_held = record no_memory {
  messages = λ ns. message_of main_ns held_row ∷ message_of main_ns last_row ∷ [];
  offsets = λ ns. pos 2;
}

two-Holds : Holds main_ns two_rows two_held
unfolding message_of text_eq
two-Holds = record {
  log = refl;
  numbered = record { counter = refl; numbered = (refl, (refl, tt)) };
  seqs = refl;
}

query-Holds_example :
    query never main_ns (from_cursor 1 (pos 5)) two_rows
    ≡ Memory_log.query main_ns (from_cursor 1 (pos 5)) two_held
query-Holds_example =
    query-Holds never main_ns (from_cursor 1 (pos 5)) two_rows two_held refl two-Holds

active_claims-Holds_example :
    active_claims never sample_json no_glob (pos 20) main_ns [] two_rows
    ≡ ok (
        filter
          (λ (c : Claim). resource_matches_pattern no_glob [] c.resource_uri)
          (filter_active_claims sample_json
            (pos 20)
            (filter no_heartbeat (two_held.messages main_ns))))
active_claims-Holds_example =
    active_claims-Holds sample_json no_glob never (pos 20) main_ns [] two_rows two_held refl
      two-Holds

abbrev late : ℕ
late = 99999999999999

last_expired : expired_offsets never sample_json (pos late) (rows_in main_ns two_rows) ≡ pos 2 ∷ []
unfolding expired_offsets type_eq text_eq seconds ◌+ℤ◌ wrap64
last_expired = refl

two_split : rows_in main_ns two_rows ≡ (held_row ∷ []) ++ (last_row ∷ [])
unfolding text_eq
two_split = refl

abbrev after_expiry : Result (Unit {0}) × Tables Body
after_expiry = release_expired never sample_json main_ns (pos late) two_rows

abbrev after_append : Result (Unit {0}) × Tables Body
after_append = append never (pos late) main_ns (untimed claim_message ∷ []) after_expiry.1

-- The new row has the offset 2 of the deleted one.
abbrev reused_row : Row Body
reused_row = record {
  namespace = main_ns;
  offset = pos 2;
  seq = some (pos 2);
  type = msg_claim;
  agent_id = claim_message.agent_id;
  payload = claim_message.payload;
  timestamp = pos late;
}

expired_offset_reused_example :
    (after_expiry.0 ≡ ok tt)
    × (rows_in main_ns after_expiry.1 ≡ held_row ∷ [])
    × (after_append.0 ≡ ok tt)
    × (rows_in main_ns after_append.1 ≡ held_row ∷ reused_row ∷ [])
    × (query never main_ns (from_cursor (length (two_held.messages main_ns)) (pos 0)) after_append.1
        ≡ ok [])
expired_offset_reused_example =
    expired_offset_reused never works sample_json (pos late) (pos late) main_ns two_rows two_held
      (held_row ∷ []) last_row (untimed claim_message) two-Holds two_split last_expired refl
      (omega arith)

abbrev given_task : A2aTask Body
given_task = record {
  id = codes "t1";
  session_id = [];
  state = task_submitted;
  status_msg = claim_body write_claim;
  status_time = pos 1;
  claim_id = [];
  namespace = [];
  metadata = claim_body write_claim;
  created_at = pos 1;
}

abbrev changed_task : A2aTask Body
changed_task = record given_task {
  session_id = codes "s2";
  state = task_completed;
  status_msg = heartbeat_message.payload;
  status_time = pos 2;
  claim_id = codes "c9";
  created_at = pos 3;
}

task_round_trip_example :
    ((create_task never main_ns given_task no_tables).0 ≡ ok tt)
    × ((get_task never main_ns (codes "t1") (create_task never main_ns given_task no_tables).1
          ≡ ok (record given_task { namespace = main_ns }))
        × (get_task never main_ns
              (codes "t1")
              (update_task never main_ns changed_task
                (create_task never main_ns given_task no_tables).1).1
            ≡ ok (record {
              id = codes "t1";
              session_id = codes "s2";
              state = task_completed;
              status_msg = heartbeat_message.payload;
              status_time = pos 2;
              claim_id = codes "c9";
              namespace = main_ns;
              metadata = claim_body write_claim;
              created_at = pos 1;
            })))
unfolding migrated
task_round_trip_example =
    task_round_trip never main_ns given_task changed_task no_tables refl refl refl
