-- ===== src/Tests/A2a.antt =====
-- The A2A server over the in-memory provider at concrete inputs (internal/a2a).
use hearsay.Base.{
  ◌≡◌, refl, length, ◌<◌, ◌≢◌, ◌↔◌, ◌⊎◌, inl, true, false, List, [], ◌∷◌, none, some, arith, All,
}
use hearsay.Base.Int.{pos, Time}
use hearsay.Base.Text.{Text, codes}
use hearsay.Claims.{Outcome, outcome_succeeded, op_write}
use hearsay.Provider.{
  TaskState, task_canceled, task_working, task_completed, task_failed, MailboxMessage, MailboxType,
  note,
}
use hearsay.Memory.{Provider, new, task_key}
use hearsay.A2a.Task.{Task, SkillParams, A2aJson, terminal_state, transition, new_task}
use hearsay.A2a.Handlers.{fail, TaskParams, handle_tasks_send, handle_tasks_cancel}
use hearsay.A2a.Transitions.{◌⟶◌, IsTerminal, transitions, transition_iff, terminal_absorbs}
use hearsay.A2a.Quiet.{memory_server}
use hearsay.A2a.Sending.{Settled, send_settles}
use hearsay.A2a.Touching.{IsKeyed}
use hearsay.A2a.Refusing.{
  Request, send_request, get_request, cancel_request, behind_all, sent_never_canceled,
}
use hearsay.A2a.Streaming.{channel_size, start_task_execution}
use hearsay.A2a.Subscribing.{always}
use hearsay.A2a.Fitting.{execution_fits}
use hearsay.A2a.Skills.{Server}
use hearsay.Tests.Fixtures.{Body, junk, id_body, sample_json, no_glob, main_ns, file_a}
use hearsay.Tests.Client.{seven}

abbrev claim_params : SkillParams
claim_params = record {
  skill_id = codes "claim_resource";
  resource_uri = file_a;
  operation = op_write;
  intent = codes "edit";
  agent_id = [];
  ttl_seconds = pos 60;
  claim_id = [];
  outcome = [];
  to = [];
  msg_type = [];
  content = [];
  related_claim_id = [];
  unread_only = false;
}

abbrev sample_a2a_json : A2aJson Body
sample_a2a_json = record {
  decode_params = λ b. some claim_params;
  encode_message = λ m. junk;
  encode_status = λ m. junk;
  decode_status = λ b. none;
  encode_parts = λ ps. junk;
  decode_parts = λ b. [];
  encode_report = λ r. junk;
  encode_granted = id_body;
  encode_mailbox = λ ms. junk;
  encode_sent = id_body;
  empty_object = junk;
}

abbrev as_given : List MailboxMessage → List MailboxMessage
as_given ms = ms

abbrev any_outcome : Text → Outcome
any_outcome t = outcome_succeeded

abbrev any_type : Text → MailboxType
any_type t = note

abbrev server : Server Body (Provider Body)
server =
    memory_server sample_json sample_a2a_json seven no_glob as_given any_outcome any_type main_ns

abbrev request : TaskParams Body
request = record {
  id = codes "t1";
  session_id = codes "s1";
  message = record {
    role = codes "user";
    parts = record { type = codes "data"; text = []; content = some junk } ∷ [];
  };
}

abbrev no_tasks : Provider Body
no_tasks = new

request_named : request.id ≢ []
request_named h = ground arith

fresh_id : no_tasks.a2a_tasks (task_key main_ns request.id) ≡ none
unfolding new
fresh_id = refl

send_settles_example :
    Settled sample_json sample_a2a_json seven no_glob as_given any_outcome any_type main_ns
      (task_key main_ns request.id)
      (handle_tasks_send server (pos 1000) (codes "alice") (some request) no_tasks)
send_settles_example =
    send_settles sample_json sample_a2a_json seven no_glob as_given any_outcome any_type main_ns
      (pos 1000) (codes "alice") request no_tasks request_named fresh_id

abbrev after_send : Provider Body
after_send = (handle_tasks_send server (pos 1000) (codes "alice") (some request) no_tasks).1

execution_fits_example :
    length
      (start_task_execution server always
        (pos 1000)
        false
        (codes "alice")
        (new_task sample_a2a_json (pos 1000) (codes "t1") [] main_ns)
        request.message
        no_tasks).0
    < channel_size
execution_fits_example =
    execution_fits server always (pos 1000) false (codes "alice")
      (new_task sample_a2a_json (pos 1000) (codes "t1") [] main_ns) request.message no_tasks

no_tasks-IsKeyed : IsKeyed main_ns no_tasks.a2a_tasks
unfolding new
no_tasks-IsKeyed id st e = absurd cc

abbrev other_request : TaskParams Body
other_request = record request { id = codes "t2" }

-- The first task is canceled, and so is another one that is sent after it; the first is sent again.
abbrev requests : List (Request Body)
requests =
    cancel_request (pos 1100) (some (codes "t1"))
    ∷ send_request (pos 1200) (codes "bob") (some other_request)
    ∷ cancel_request (pos 1300) (some (codes "t2"))
    ∷ get_request (some (codes "t1"))
    ∷ send_request (pos 1400) (codes "bob") (some request)
    ∷ []

abbrev after_requests : Provider Body
after_requests =
    behind_all sample_json sample_a2a_json seven no_glob as_given any_outcome any_type main_ns
      requests after_send

sent_never_canceled_example :
    let canceled = handle_tasks_cancel server (pos 2000) (some request.id) after_requests in
    ((canceled.0 ≡ fail (terminal_state task_completed))
      ⊎ (canceled.0 ≡ fail (terminal_state task_failed)))
    × (canceled.1 ≡ after_requests)
sent_never_canceled_example =
    sent_never_canceled sample_json sample_a2a_json seven no_glob as_given any_outcome any_type
      main_ns (pos 1000) (pos 2000) (codes "alice") request requests no_tasks request_named fresh_id
      no_tasks-IsKeyed

abbrev submitted : Task Body
submitted = new_task sample_a2a_json (pos 1000) (codes "t1") [] main_ns

transition_iff_example :
    (((transition (pos 7) task_working submitted).0 ≡ true) ↔ (submitted.state ⟶ task_working))
    × ((transition (pos 7) task_working submitted).0 ≡ true
        → (transition (pos 7) task_working submitted).1
          ≡ record submitted { state = task_working; status_time = pos 7 })
    × ((transition (pos 7) task_working submitted).0 ≡ false
        → (transition (pos 7) task_working submitted).1 ≡ submitted)
transition_iff_example = transition_iff (pos 7) task_working submitted

abbrev completed : Task Body
completed = record submitted { state = task_completed; status_time = pos 5 }

completed-IsTerminal : IsTerminal completed.state
completed-IsTerminal = inl refl

abbrev three_calls : List (Time × TaskState)
three_calls = (pos 6, task_working) ∷ (pos 7, task_completed) ∷ (pos 8, task_canceled) ∷ []

terminal_absorbs_example :
    All (λ answer. answer ≡ false) (transitions three_calls completed).0
    × ((transitions three_calls completed).1 ≡ completed)
terminal_absorbs_example = terminal_absorbs three_calls completed completed-IsTerminal
