-- ===== src/A2a/Quiet.antt =====
-- What a skill leaves alone, over the in-memory provider (internal/a2a/handler_skills.go,
-- internal/memory/memory.go).
use hearsay.Base.{◌≡◌, refl, inl, inr, Bool, List, Option, none, some, arith, Bool-cases}
use hearsay.Base.Int.{ℤ, Time}
use hearsay.Base.Text.{Text, codes, text_eq}
use hearsay.Claims.{Outcome}
use hearsay.Provider.{MailboxMessage, MailboxType, Json, Result, ok, err}
use hearsay.Memory.{Provider}
use hearsay.Memory.Log.{append, append_all, append_one}
use hearsay.Memory.Tasks.{
  create_task, get_task, update_task, append_task_history, create_artifact, get_artifacts,
}
use hearsay.Memory.Mailbox.{send_message, get_mailbox}
use hearsay.Memory.LogLaws.{memory_provider}
use hearsay.Client
use hearsay.Client.{ClaimResult, granted, conflicted, failed, claim, release}
use hearsay.A2a.Task.{Message, Task, SkillParams, A2aJson}
use hearsay.A2a.Skills.{
  TaskProvider, Server, SkillOutcome, claimed, done_or_failed, with_artifact, sent_or_failed,
  with_agent, run_params, map_to_claim_request, skill_claim_resource, skill_release_resource,
  skill_check_conflict, skill_query_mailbox, skill_send_mailbox, dispatch_skill, execute_skill,
  extract_params,
}

module _ {Payload : Type 0} (json : Json Payload) (a2a_json : A2aJson Payload) (decimal : ℤ → Text)
    (path_match : Text → Text → Bool) (sort_latest : List MailboxMessage → List MailboxMessage)
    (outcome_of : Text → Outcome) (mailbox_type_of : Text → MailboxType) (ns : Text) where
  abbrev pub memory_tasks : TaskProvider Payload (Provider Payload)
  memory_tasks = record {
    create_task = create_task;
    get_task = get_task;
    update_task = update_task;
    append_task_history = append_task_history;
    create_artifact = create_artifact;
    get_artifacts = get_artifacts;
    send_message = send_message;
    get_mailbox = get_mailbox sort_latest;
  }

  abbrev pub memory_server : Server Payload (Provider Payload)
  memory_server = record {
    json = json;
    a2a_json = a2a_json;
    decimal = decimal;
    path_match = path_match;
    log = memory_provider json path_match;
    tasks = memory_tasks;
    namespace = ns;
    outcome_of = outcome_of;
    mailbox_type_of = mailbox_type_of;
  }

  claim-a2a_tasks :
      (now : Time) (req : Client.ClaimRequest) (p : Provider Payload)
      → (claim json (memory_provider json path_match) ns decimal path_match now req p).1.a2a_tasks
        ≡ p.a2a_tasks
  unfolding claim append append_all append_one
  claim-a2a_tasks now req p = ground arith

  -- A skill leaves the stored tasks alone, and the id and the state of its own task.
  pub record Quiet (task : Task Payload) (p : Provider Payload)
      (out : SkillOutcome Payload (Provider Payload)) : Type 0 where
    pub tasks : out.2.a2a_tasks ≡ p.a2a_tasks
    pub id : out.1.id ≡ task.id
    pub state : out.1.state ≡ task.state

  claimed-Quiet :
      (task : Task Payload) (p : Provider Payload) (out : ClaimResult × Provider Payload)
      → out.1.a2a_tasks ≡ p.a2a_tasks
      → Quiet task p (claimed memory_server task out)
  claimed-Quiet task p (granted resp, s) h = record { tasks = h; id = refl; state = refl }
  claimed-Quiet task p (conflicted resp report, s) h = record { tasks = h; id = refl; state = refl }
  claimed-Quiet task p (failed e, s) h = record { tasks = h; id = refl; state = refl }

  done_or_failed-Quiet :
      (task : Task Payload) (p : Provider Payload) (out : Result (Unit {0}) × Provider Payload)
      → out.1.a2a_tasks ≡ p.a2a_tasks
      → Quiet task p (done_or_failed memory_server task out)
  done_or_failed-Quiet task p (ok u, s) h = record { tasks = h; id = refl; state = refl }
  done_or_failed-Quiet task p (err e, s) h = record { tasks = h; id = refl; state = refl }

  with_artifact-Quiet :
      (name : Text) (task : Task Payload) (r : Result Payload) (p : Provider Payload)
      → Quiet task p (with_artifact memory_server name task r p)
  with_artifact-Quiet name task (err e) p = record { tasks = refl; id = refl; state = refl }
  with_artifact-Quiet name task (ok x) p = record { tasks = refl; id = refl; state = refl }

  sent_or_failed-Quiet :
      (task : Task Payload) (id : Text) (p : Provider Payload)
      (out : Result (Unit {0}) × Provider Payload)
      → out.1.a2a_tasks ≡ p.a2a_tasks
      → Quiet task p (sent_or_failed memory_server task id out)
  sent_or_failed-Quiet task id p (ok u, s) h = record { tasks = h; id = refl; state = refl }
  sent_or_failed-Quiet task id p (err e, s) h = record { tasks = h; id = refl; state = refl }

  skill_claim_resource-Quiet :
      (now : Time) (task : Task Payload) (params : SkillParams) (p : Provider Payload)
      → Quiet task p (skill_claim_resource memory_server now task params p)
  unfolding skill_claim_resource
  skill_claim_resource-Quiet now task params p =
      claimed-Quiet task p
        (claim json (memory_provider json path_match) ns decimal path_match now
          (map_to_claim_request params) p)
        (claim-a2a_tasks now (map_to_claim_request params) p)

  skill_release_resource-Quiet :
      (now : Time) (task : Task Payload) (params : SkillParams) (p : Provider Payload)
      → Quiet task p (skill_release_resource memory_server now task params p)
  unfolding skill_release_resource release append append_all append_one
  skill_release_resource-Quiet now task params p = record { tasks = refl; id = refl; state = refl }

  skill_check_conflict-Quiet :
      (now : Time) (task : Task Payload) (params : SkillParams) (p : Provider Payload)
      → Quiet task p (skill_check_conflict memory_server now task params p)
  unfolding skill_check_conflict
  skill_check_conflict-Quiet now task params p =
      with_artifact-Quiet (codes "conflict-report") task _ p

  skill_query_mailbox-Quiet :
      (now : Time) (task : Task Payload) (params : SkillParams) (p : Provider Payload)
      → Quiet task p (skill_query_mailbox memory_server now task params p)
  unfolding skill_query_mailbox
  skill_query_mailbox-Quiet now task params p = with_artifact-Quiet (codes "mailbox") task _ p

  skill_send_mailbox-Quiet :
      (now : Time) (task : Task Payload) (params : SkillParams) (p : Provider Payload)
      → Quiet task p (skill_send_mailbox memory_server now task params p)
  unfolding skill_send_mailbox send_message
  skill_send_mailbox-Quiet now task params p = record { tasks = refl; id = refl; state = refl }

  dispatch_skill-Quiet :
      (now : Time) (task : Task Payload) (params : SkillParams) (p : Provider Payload)
      → Quiet task p (dispatch_skill memory_server now task params p)
  unfolding dispatch_skill
  dispatch_skill-Quiet now task params p =
      elim (Bool-cases (text_eq params.skill_id (codes "claim_resource"))) [
        | inl e ↦ rw e (skill_claim_resource-Quiet now task params p)
        | inr e ↦ rw e (elim (Bool-cases (text_eq params.skill_id (codes "release_resource"))) [
          | inl e ↦ rw e (skill_release_resource-Quiet now task params p)
          | inr e ↦ rw e (elim (Bool-cases (text_eq params.skill_id (codes "check_conflict"))) [
            | inl e ↦ rw e (skill_check_conflict-Quiet now task params p)
            | inr e ↦ rw e (elim (Bool-cases (text_eq params.skill_id (codes "query_mailbox"))) [
              | inl e ↦ rw e (skill_query_mailbox-Quiet now task params p)
              | inr e ↦ rw e (elim (Bool-cases (text_eq params.skill_id (codes "send_mailbox"))) [
                | inl e ↦ rw e (skill_send_mailbox-Quiet now task params p)
                | inr e ↦ rw e (record { tasks = refl; id = refl; state = refl })
              ])
            ])
          ])
        ])
      ]

  run_params-Quiet :
      (now : Time) (auth : Text) (task : Task Payload) (o : Option SkillParams)
      (p : Provider Payload)
      → Quiet task p (run_params memory_server now auth task o p)
  run_params-Quiet now auth task none p = record { tasks = refl; id = refl; state = refl }
  run_params-Quiet now auth task (some params) p =
      dispatch_skill-Quiet now task (with_agent memory_server auth params) p

  pub execute_skill-Quiet :
      (now : Time) (auth : Text) (task : Task Payload) (msg : Message Payload)
      (p : Provider Payload)
      → Quiet task p (execute_skill memory_server now auth task msg p)
  unfolding execute_skill
  execute_skill-Quiet now auth task msg p =
      run_params-Quiet now auth task (extract_params a2a_json msg.parts) p
