-- ===== src/Server/Http/OverMemory.antt =====
-- The in-memory provider (internal/memory/memory.go) behind the HTTP handlers.
use hearsay.Base.{◌≡◌, refl, Bool, Option, none, some, List, Bool-cases, inl, inr}
use hearsay.Base.Int.{Time}
use hearsay.Base.Text.{Text}
use hearsay.Provider.{Namespace, MailboxMessage, Json, Error, ok, err}
use hearsay.Memory.{Provider, is_some}
use hearsay.Memory as In_memory
use hearsay.Memory.Log
use hearsay.Memory.Mailbox as Mail
use hearsay.Memory.LogLaws.{memory_provider}
use hearsay.Server.Http.{Store}
use hearsay.Server.Http.Refusing.{IsAtomic, FailsCleanly}

module _ {Payload : Type 0} (json : Json Payload) (path_match : Text → Text → Bool)
    (sort_latest : List MailboxMessage → List MailboxMessage) where
  abbrev pub memory_store : Store Payload (Provider Payload)
  memory_store = record {
    log = memory_provider json path_match;
    create_namespace = In_memory.create_namespace;
    delete_namespace = In_memory.delete_namespace;
    agent_state = Log.agent_state json;
    release_expired = Log.release_expired;
    send_message = Mail.send_message;
    get_mailbox = Mail.get_mailbox sort_latest;
    mark_read = Mail.mark_read;
    archive_message = Mail.archive_message;
  }

  changed-same :
      (ns id : Text) (p : Provider Payload) (o : Option (List MailboxMessage)) (e : Error)
      → (Mail.changed ns id p o).0 ≡ err e
      → (Mail.changed ns id p o).1 ≡ p
  changed-same ns id p none e h = refl
  changed-same ns id p (some msgs) e h = cc

  create_namespace-FailsCleanly :
      (ns : Namespace) → FailsCleanly (In_memory.create_namespace {Payload = Payload} ns)
  unfolding In_memory.create_namespace
  create_namespace-FailsCleanly ns p e h = elim (Bool-cases (is_some (p.namespaces ns.id))) [
    | inl taken ↦ rw taken refl
    | inr free ↦ (let fine : ok tt ≡ err e = rw free at h in cc)
  ]

  delete_namespace-FailsCleanly :
      (ns : Text) → FailsCleanly (In_memory.delete_namespace {Payload = Payload} ns)
  unfolding In_memory.delete_namespace
  delete_namespace-FailsCleanly ns p e h = cc

  send_message-FailsCleanly :
      (now : Time) (ns : Text) (msg : MailboxMessage)
      → FailsCleanly (Mail.send_message {Payload = Payload} now ns msg)
  unfolding Mail.send_message
  send_message-FailsCleanly now ns msg p e h = cc

  mark_read-FailsCleanly : (ns id : Text) → FailsCleanly (Mail.mark_read {Payload = Payload} ns id)
  unfolding Mail.mark_read
  mark_read-FailsCleanly ns id p e h =
      changed-same ns id p (Mail.change_first Mail.as_read id (p.mailbox_messages ns)) e h

  archive_message-FailsCleanly :
      (ns id : Text) → FailsCleanly (Mail.archive_message {Payload = Payload} ns id)
  unfolding Mail.archive_message
  archive_message-FailsCleanly ns id p e h =
      changed-same ns id p (Mail.change_first Mail.as_archived id (p.mailbox_messages ns)) e h

  -- Its failing calls change nothing.
  pub memory-IsAtomic : IsAtomic memory_store
  memory-IsAtomic = record {
    append = λ now ns msgs s e h. (unfold Log.append in cc);
    create_namespace = create_namespace-FailsCleanly;
    delete_namespace = delete_namespace-FailsCleanly;
    release_expired = λ ns before s e h. (unfold Log.release_expired in refl);
    send_message = send_message-FailsCleanly;
    mark_read = mark_read-FailsCleanly;
    archive_message = archive_message-FailsCleanly;
  }
