-- ===== src/Server/Http.antt =====
-- internal/server: requests and replies of the HTTP handlers, and what these share.
-- A handler runs on the audit logger, whose `store` is the state behind the provider. The bodies of
-- error replies, and the headers of replies, are left out.
pub mod Coordination
pub mod Proxy
pub mod Mailbox
pub mod Events
pub mod Serve
pub mod Refusing
pub mod Letters
pub mod Errors
pub mod Granting
pub mod OverMemory
use hearsay.Base.{ℕ, Bool, List, Option, none, some}
use hearsay.Base.Int.{ℤ, Time}
use hearsay.Base.Text.{Text}
use hearsay.Claims.{Claim, Conflict, ConflictReport, Outcome}
use hearsay.Provider.{
  Message, Namespace, AgentState, MailboxMessage, MailboxQueryOpts, LogProvider, Result, ok, err,
}
use hearsay.Client.{ClaimRequest, ClaimResponse}
use hearsay.Mail.{Letter, Invalid}
use hearsay.Server.Audit.{Logger}
use hearsay.Server.Guarding.{Headers}

pub data Content (Payload : Type 0) : Type 0 where
  no_content refusal accepted : Content Payload
  claim_content : ClaimResponse → Content Payload
  locked_content : Conflict → ClaimResponse → Content Payload
  claims_content : List Claim → Content Payload
  report_content : ConflictReport → Content Payload
  messages_content : List (Message Payload) → Content Payload
  agent_content : AgentState → Content Payload
  id_content : Text → Content Payload
  mailbox_content : List MailboxMessage → Content Payload

pub record Reply (Payload : Type 0) : Type 0 where
  pub status : ℕ
  pub content : Content Payload

-- A request: a query parameter that is missing is empty.
pub record Request (Body : Type 0) : Type 0 where
  pub method : Text
  pub headers : Headers
  pub agent_header : Text
  pub query : Text → Text
  pub body : Body

-- `json.NewDecoder(r.Body).Decode` into the struct of each handler.
pub record Bodies (Payload Body : Type 0) : Type 0 where
  pub claim_request : Body → Option ClaimRequest
  pub release_request : Body → Option (Text × Outcome)
  pub heartbeat_request : Body → Option Text
  pub intent_request : Body → Option (Text × Text)
  pub namespace_request : Body → Option Namespace
  pub deletion_request : Body → Option Text
  pub append_request : Body → Option (Text × List (Message Payload))
  pub expiry_request : Body → Option (Text × Time)
  pub letter_request : Body → Option (Text × Letter)
  pub action_request : Body → Option (Text × Text)

-- What the handlers call of the interface `Provider`.
pub record Store (Payload S : Type 0) : Type 0 where
  pub log : LogProvider Payload S
  pub create_namespace : Namespace → S → Result (Unit {0}) × S
  pub delete_namespace : Text → S → Result (Unit {0}) × S
  pub agent_state : Time → Text → Text → S → Result AgentState
  pub release_expired : Text → Time → S → Result (Unit {0}) × S
  pub send_message : Time → Text → MailboxMessage → S → Result (Unit {0}) × S
  pub get_mailbox : Time → Text → Text → MailboxQueryOpts → S → Result (List MailboxMessage)
  pub mark_read : Text → Text → S → Result (Unit {0}) × S
  pub archive_message : Text → Text → S → Result (Unit {0}) × S

-- The fields of `Server` that the handlers read, and the functions of other packages that they call:
-- `path.Match`, the printing and the parsing of integers, and `json.Marshal` of an audit entry.
pub record Setting : Type 0 where
  pub namespace : Text
  pub locking : Bool
  pub token : Text
  pub limit : ℤ
  pub path_match : Text → Text → Bool
  pub decimal : ℤ → Text
  pub parse_int : Text → Option ℤ
  pub marshal : List (Text × Text) → Text

module _ {Payload : Type 0} where
  abbrev pub reply : ℕ → Content Payload → Reply Payload
  reply status content = record { status = status; content = content }

  -- `http.Error(w, err.Error(), http.StatusBadRequest)`.
  abbrev pub bad_request : Reply Payload
  bad_request = reply 400 refusal

module _ (Payload S : Type 0) where
  abbrev pub Handler : Type 0
  Handler = Logger S → Reply Payload × Logger S

-- A call of the provider.
abbrev pub on_store : {A S : Type 0} → (S → A × S) → Logger S → A × Logger S
on_store f l = let (a, s) = f l.store in (a, record l { store = s })

module _ {Payload S : Type 0} where
  abbrev pub decoded : {A : Type 0} → Option A → (A → Handler Payload S) → Handler Payload S
  decoded none f l = (bad_request, l)
  decoded (some a) f l = f a l

  abbrev pub valid : Option Invalid → Handler Payload S → Handler Payload S
  valid (some e) h l = (bad_request, l)
  valid none h l = h l

  -- A call that gives no value: `success`, or `failure` with the text of its error.
  abbrev pub answered : Reply Payload → ℕ → Result (Unit {0}) × Logger S → Reply Payload × Logger S
  answered success failure (ok u, l) = (success, l)
  answered success failure (err e, l) = (reply failure refusal, l)

  -- A call that reads a value.
  abbrev pub answered_with :
      {A : Type 0} → (A → Content Payload) → Result A → Logger S → Reply Payload × Logger S
  answered_with f (ok a) l = (reply 200 (f a), l)
  answered_with f (err e) l = (reply 500 refusal, l)
