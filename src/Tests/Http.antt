-- ===== src/Tests/Http.antt =====
-- The HTTP handlers at concrete inputs (internal/server).
use hearsay.Base.{
  ℕ, ◌≡◌, refl, ◌≤◌, suc, List, [], ◌∷◌, Option, none, some, false, true, ◌==◌, arith,
}
use hearsay.Base.Int.{pos}
use hearsay.Base.Text.{Text, codes, text_eq, contains, has_prefix}
use hearsay.Claims.{op_write}
use hearsay.Provider.{Namespace}
use hearsay.Memory.{Provider, new, create_namespace}
use hearsay.Memory.Numbering.{WellNumbered}
use hearsay.Memory.LogLaws.{memory-LogLaws}
use hearsay.Client.{ClaimRequest}
use hearsay.Mail.{validate_agent_id, validate_resource_uri, validate_intent}
use hearsay.Server.Guarding.{passes}
use hearsay.Server.RateLimit.{wrap, evict, is_limited}
use hearsay.Server.Http.{Bodies, Request, Setting}
use hearsay.Server.Http.Serve.{
  Site, at_claim, at_create, serve, is_guarded, rate_limited, authorized, handle,
}
use hearsay.Server.Http.Proxy.{handle_create_namespace}
use hearsay.Server.Http.Granting.{IsValid, IsDecided, claim_answered}
use hearsay.Server.Http.Errors.{error_changes_nothing}
use hearsay.Server.Http.OverMemory.{memory_store, memory-IsAtomic}
use hearsay.Tests.Fixtures.{Body, sample_json, no_glob, main_ns}
use hearsay.Tests.Memory.{as_given}

-- A body as its decoded form.
data HttpBody : Type 0 where
  claim_form : ClaimRequest → HttpBody
  namespace_form : Namespace → HttpBody

abbrev claim_of_form : HttpBody → Option ClaimRequest
claim_of_form (claim_form req) = some req
claim_of_form (namespace_form ns) = none

abbrev namespace_of_form : HttpBody → Option Namespace
namespace_of_form (claim_form req) = none
namespace_of_form (namespace_form ns) = some ns

abbrev forms : Bodies Body HttpBody
forms = record {
  claim_request = claim_of_form;
  release_request = λ b. none;
  heartbeat_request = λ b. none;
  intent_request = λ b. none;
  namespace_request = namespace_of_form;
  deletion_request = λ b. none;
  append_request = λ b. none;
  expiry_request = λ b. none;
  letter_request = λ b. none;
  action_request = λ b. none;
}

abbrev setting : Setting
setting = record {
  namespace = main_ns;
  locking = true;
  token = codes "s3";
  limit = pos 2;
  path_match = no_glob;
  decimal = λ n. codes "7";
  parse_int = λ t. none;
  marshal = λ es. [];
}

abbrev request_with : HttpBody → Request HttpBody
request_with b = record {
  method = codes "POST";
  headers = record { authorization = codes "Bearer s3"; api_key = [] };
  agent_header = codes "a";
  query = λ k. [];
  body = b;
}

abbrev empty_memory : Provider Body
empty_memory = new

abbrev site_on : Provider Body → Site (Provider Body)
site_on p = record {
  windows = λ agent. [];
  logger = record { level = pos 1; namespace = main_ns; queue = []; batch = []; store = p };
}

abbrev write_request : ClaimRequest
write_request = record {
  resource_uri = codes "file://a";
  agent_id = codes "bob";
  operation = op_write;
  intent = codes "edit";
  projected_end = [];
  ttl_seconds = pos 60;
  parent_claim_id = [];
}

write-IsValid : IsValid write_request
unfolding validate_agent_id validate_resource_uri validate_intent text_eq contains has_prefix
write-IsValid = record { agent = refl; resource = refl; intent = refl }

fresh-WellNumbered : WellNumbered main_ns empty_memory
unfolding new
fresh-WellNumbered = record { counter = refl; numbered = tt }

claim_answered_example :
    IsDecided sample_json
      (memory_store sample_json no_glob as_given)
      forms
      setting
      (λ p. p.messages main_ns)
      (WellNumbered main_ns)
      (memory-LogLaws sample_json no_glob main_ns)
      (pos 1000)
      write_request
      empty_memory
      (let out =
          serve sample_json
            (memory_store sample_json no_glob as_given)
            forms
            setting
            (pos 1000)
            (codes "m")
            at_claim
            (request_with (claim_form write_request))
            (site_on empty_memory) in
        (out.0, out.1.logger))
unfolding new passes text_eq has_prefix wrap evict is_limited hearsay.Base.Text.trim_prefix
    hearsay.Base.Text.behind
claim_answered_example =
    claim_answered sample_json (memory_store sample_json no_glob as_given) forms setting
      (λ p. p.messages main_ns) (WellNumbered main_ns) (memory-LogLaws sample_json no_glob main_ns)
      (pos 1000) (codes "m") (request_with (claim_form write_request)) write_request
      (site_on empty_memory) refl refl refl write-IsValid fresh-WellNumbered (omega arith)

abbrev taken_namespace : Namespace
taken_namespace = record { id = main_ns; created_at = pos 1 }

abbrev memory_with_main : Provider Body
memory_with_main = (create_namespace taken_namespace empty_memory).1

abbrev taken_answer : ℕ
taken_answer =
    (serve sample_json (memory_store sample_json no_glob as_given) forms setting (pos 1000)
      (codes "m") at_create (request_with (namespace_form taken_namespace))
      (site_on memory_with_main)).0.status

taken_fails : taken_answer ≡ 500
unfolding serve is_guarded rate_limited authorized handle handle_create_namespace create_namespace
    new passes text_eq has_prefix wrap evict is_limited hearsay.Base.Text.trim_prefix
    hearsay.Base.Text.behind
taken_fails = refl

error_changes_nothing_example :
    (serve sample_json
      (memory_store sample_json no_glob as_given)
      forms
      setting
      (pos 1000)
      (codes "m")
      at_create
      (request_with (namespace_form taken_namespace))
      (site_on memory_with_main)).1.logger.store
    ≡ memory_with_main
error_changes_nothing_example =
    error_changes_nothing sample_json (memory_store sample_json no_glob as_given) forms setting
      (pos 1000) (codes "m") (memory-IsAtomic sample_json no_glob as_given) at_create
      (request_with (namespace_form taken_namespace)) (site_on memory_with_main)
      (omega (arith, taken_fails))
