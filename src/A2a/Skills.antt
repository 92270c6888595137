-- ===== src/A2a/Skills.antt =====
-- internal/a2a/mapper.go and handler_skills.go: the parameters of a skill and the five skills.
-- The provider's state is `S`. A skill changes the task that the handler holds a pointer to, so
-- the task comes back beside a failure too.
use hearsay.Base.{Bool, false, List, [], ◌∷◌, Option, none, some, if◌then◌else◌}
use hearsay.Base.Int.{ℤ, pos, Time, zero_time}
use hearsay.Base.Text.{Text, codes, text_eq}
use hearsay.Claims.{Outcome, outcome_succeeded}
use hearsay.Provider.{
  Json, LogProvider, MailboxMessage, MailboxType, MailboxQueryOpts, Result, ok, err, A2aTask,
  A2aMessage, A2aArtifact,
}
use hearsay.Client
use hearsay.Client.{ClaimRequest, ClaimResult, granted, conflicted, failed}
use hearsay.A2a.Task.{
  Part, Message, Artifact, Task, SkillParams, A2aJson, RpcError, conflict_detected, skill_failed,
}

-- What the package uses of the interface `Provider` for tasks and mailboxes.
pub record TaskProvider (Payload S : Type 0) : Type 0 where
  pub create_task : Text → A2aTask Payload → S → Result (Unit {0}) × S
  pub get_task : Text → Text → S → Result (A2aTask Payload)
  pub update_task : Text → A2aTask Payload → S → Result (Unit {0}) × S
  pub append_task_history : Text → Text → ℤ → A2aMessage Payload → S → Result (Unit {0}) × S
  pub create_artifact : Text → Text → A2aArtifact Payload → S → Result (Unit {0}) × S
  pub get_artifacts : Text → Text → S → Result (List (A2aArtifact Payload))
  pub send_message : Time → Text → MailboxMessage → S → Result (Unit {0}) × S
  pub get_mailbox : Time → Text → Text → MailboxQueryOpts → S → Result (List MailboxMessage)

-- A `Server` with what its client was made of. `outcome_of` and `mailbox_type_of` read a text as
-- one of the constants of its type.
pub record Server (Payload S : Type 0) : Type 0 where
  pub json : Json Payload
  pub a2a_json : A2aJson Payload
  pub decimal : ℤ → Text
  pub path_match : Text → Text → Bool
  pub log : LogProvider Payload S
  pub tasks : TaskProvider Payload S
  pub namespace : Text
  pub outcome_of : Text → Outcome
  pub mailbox_type_of : Text → MailboxType

-- The task after a skill, and the error that the skill returned, if it did.
abbrev pub SkillOutcome : Type 0 → Type 0 → Type 0
SkillOutcome Payload S = Option RpcError × Task Payload × S

unfoldable pub map_to_claim_request : SkillParams → ClaimRequest
map_to_claim_request params = record {
  resource_uri = params.resource_uri;
  agent_id = params.agent_id;
  operation = params.operation;
  intent = params.intent;
  projected_end = [];
  ttl_seconds = params.ttl_seconds;
  parent_claim_id = [];
}

module _ {Payload : Type 0} where
  -- The first part of type `data` that has data decides; `none` is an error.
  unfoldable pub extract_params : A2aJson Payload → List (Part Payload) → Option SkillParams
  extract_params json [] = none
  extract_params json (p ∷ parts) =
      let rest = extract_params json parts in
      if text_eq p.type (codes "data")
      then elim p.content [ none ↦ rest | some d ↦ json.decode_params d ]
      else rest

  abbrev pub one_artifact : Text → Payload → List (Artifact Payload)
  one_artifact name payload =
      record {
        name = name;
        description = [];
        parts = record { type = codes "data"; text = []; content = some payload } ∷ [];
        index = pos 0;
        append = false;
        last_chunk = false;
      }
      ∷ []

module _ {Payload S : Type 0} (srv : Server Payload S) where
  unfoldable pub map_to_mailbox_message : SkillParams → MailboxMessage
  map_to_mailbox_message params = record {
    message_id = [];
    from = [];
    to = params.to;
    type = srv.mailbox_type_of params.msg_type;
    content = params.content;
    related_claim_id = params.related_claim_id;
    read = false;
    archived = false;
    created_at = zero_time;
    expires_at = zero_time;
  }

  abbrev pub claimed : Task Payload → ClaimResult × S → SkillOutcome Payload S
  claimed task (granted resp, s) = (
    none,
    record task {
      claim_id = resp.claim_id;
      artifacts = one_artifact (codes "claim-result") (srv.a2a_json.encode_granted resp.claim_id);
    },
    s,
  )
  claimed task (conflicted resp report, s) = (
    some (conflict_detected report),
    record task {
      artifacts = one_artifact (codes "conflict-report") (srv.a2a_json.encode_report report);
    },
    s,
  )
  claimed task (failed e, s) = (some skill_failed, task, s)

  unfoldable pub skill_claim_resource :
      Time → Task Payload → SkillParams → S → SkillOutcome Payload S
  skill_claim_resource now task params s = claimed task (
      Client.claim srv.json srv.log srv.namespace srv.decimal srv.path_match now
        (map_to_claim_request params) s)

  abbrev pub done_or_failed : Task Payload → Result (Unit {0}) × S → SkillOutcome Payload S
  done_or_failed task (ok u, s) = (none, task, s)
  done_or_failed task (err e, s) = (some skill_failed, task, s)

  unfoldable pub skill_release_resource :
      Time → Task Payload → SkillParams → S → SkillOutcome Payload S
  skill_release_resource now task params s =
      let outcome =
        if text_eq params.outcome [] then outcome_succeeded else srv.outcome_of params.outcome in
      done_or_failed task
        (Client.release srv.json srv.log srv.namespace now params.claim_id outcome s)

  abbrev pub with_artifact : Text → Task Payload → Result Payload → S → SkillOutcome Payload S
  with_artifact name task (err e) s = (some skill_failed, task, s)
  with_artifact name task (ok p) s = (none, record task { artifacts = one_artifact name p }, s)

  abbrev pub map_ok : {A B : Type 0} → (A → B) → Result A → Result B
  map_ok f (ok a) = ok (f a)
  map_ok f (err e) = err e

  unfoldable pub skill_check_conflict :
      Time → Task Payload → SkillParams → S → SkillOutcome Payload S
  skill_check_conflict now task params s =
      with_artifact (codes "conflict-report") task
        (map_ok srv.a2a_json.encode_report (
          Client.check_conflict_for srv.json srv.log srv.namespace srv.path_match now
            params.resource_uri params.operation s))
        s

  unfoldable pub skill_query_mailbox :
      Time → Task Payload → SkillParams → S → SkillOutcome Payload S
  skill_query_mailbox now task params s =
      with_artifact (codes "mailbox") task
        (map_ok srv.a2a_json.encode_mailbox (
          srv.tasks.get_mailbox now srv.namespace params.agent_id
            (record { unread = params.unread_only; include_claims = false; limit = pos 0 }) s))
        s

  abbrev pub sent_or_failed : Task Payload → Text → Result (Unit {0}) × S → SkillOutcome Payload S
  sent_or_failed task id (err e, s) = (some skill_failed, task, s)
  sent_or_failed task id (ok u, s) = (
    none,
    record task { artifacts = one_artifact (codes "send-result") (srv.a2a_json.encode_sent id) },
    s,
  )

  unfoldable pub skill_send_mailbox : Time → Task Payload → SkillParams → S → SkillOutcome Payload S
  skill_send_mailbox now task params s =
      let msg = record (map_to_mailbox_message params) { from = params.agent_id } in
      sent_or_failed task msg.message_id (srv.tasks.send_message now srv.namespace msg s)

  -- The agent of the authenticated request stands in for one that the parameters leave out.
  abbrev pub with_agent : Text → SkillParams → SkillParams
  with_agent auth_agent params =
      if text_eq params.agent_id [] then record params { agent_id = auth_agent } else params

  unfoldable pub dispatch_skill : Time → Task Payload → SkillParams → S → SkillOutcome Payload S
  dispatch_skill now task params s =
      if text_eq params.skill_id (codes "claim_resource")
      then skill_claim_resource now task params s
      else if text_eq params.skill_id (codes "release_resource")
      then skill_release_resource now task params s
      else if text_eq params.skill_id (codes "check_conflict")
      then skill_check_conflict now task params s
      else if text_eq params.skill_id (codes "query_mailbox")
      then skill_query_mailbox now task params s
      else if text_eq params.skill_id (codes "send_mailbox")
      then skill_send_mailbox now task params s
      else (some skill_failed, task, s)

  abbrev pub run_params :
      Time → Text → Task Payload → Option SkillParams → S → SkillOutcome Payload S
  run_params now auth_agent task none s = (some skill_failed, task, s)
  run_params now auth_agent task (some params) s =
      dispatch_skill now task (with_agent auth_agent params) s

  unfoldable pub execute_skill :
      Time → Text → Task Payload → Message Payload → S → SkillOutcome Payload S
  execute_skill now auth_agent task msg s =
      run_params now auth_agent task (extract_params srv.a2a_json msg.parts) s
