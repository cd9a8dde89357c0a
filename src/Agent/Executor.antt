-- ===== src/Agent/Executor.antt =====
-- packages/agent-runtime/src/llm/tool-executor.ts. The calls of a turn run one after the other
-- here, in their order: the source starts them together, and their effects may interleave. Spans
-- and the clock are left out; a call's duration is a number that the environment gives. The audit
-- event that follows the delivery of an alert is the alerting service's.
pub mod Single
pub mod Laws
pub mod Output
pub mod Order
use secure_claw.Base.{
  ℕ, String, ◌<>◌, Bool, true, false, not, ◌&&◌, ◌||◌, Option, none, some, List, [], ◌∷◌, ◌++◌, map,
  ◌==◌, if◌then◌else◌, nat_eq, is_some, or_else, first, non_empty, leb,
}
use secure_claw.Base.Text.{slice_to}
use secure_claw.Base.Json.{Json, JsonCodec, str, num, bool, null, obj, Fields, get_field, set_field}
use secure_claw.Sanitizer.{is_critical}
use secure_claw.Sanitizer.Service.{
  SanitizerService, SanitizeExternalContentResult, Outcome, returns, throws,
}
use secure_claw.Session.Context.{SessionContext}
use secure_claw.Tools.Policy.{PolicyDecisionResult}
use secure_claw.Agent.{
  AuditSeverity, AuditEvent, info, warn, error, critical, Alert, ToolRequest, SkillRequest, Effect,
  audit, alert, run_tool, execute_skill,
}

pub record SkillToolRoute : Type 0 where
  pub skill_id : String
  pub skill_version : String
  pub requires_approval : Bool
  pub credential_refs : List String

pub record PendingToolCall : Type 0 where
  pub call_id : String
  pub tool_id : String
  pub input : Json
  pub input_preview : String
  pub decision : PolicyDecisionResult
  pub approved : Bool
  pub skill_route : Option SkillToolRoute

pub record ToolCallResult : Type 0 where
  pub call_id : String
  pub tool_id : String
  pub success : Bool
  pub result : String
  pub duration_ms : ℕ
  pub error_message : Option String
  pub is_denied : Bool

pub record UrlCheck : Type 0 where
  pub safe : Bool
  pub reason : Option String
  pub category : Option String

-- What the sandbox and the skills engine answer; `success` is read of the latter only.
pub record RunResult : Type 0 where
  pub success : Bool
  pub exit_code : ℕ
  pub timed_out : Bool
  pub oom_killed : Bool
  pub stdout : String
  pub stderr : String

-- The services behind their clients, and the functions of other packages. `throws` is a rejected
-- promise with the error's message.
pub record Env : Type 0 where
  pub codec : JsonCodec
  pub show : ℕ → String
  -- `String(value)`
  pub to_text : Json → String
  pub strip_vault_refs : String → String
  -- `getSecretRef(service, account)`: a ref id, or null
  pub get_secret_ref : String → String → Outcome (Option String)
  -- `injectCredential(refId, inputJson, placeholderKey)`
  pub inject_credential : String → String → String → Outcome String
  -- `checkUrlSafetyResolved`
  pub check_url : String → UrlCheck
  pub run_tool : ToolRequest → Outcome RunResult
  -- `none` where the agent has no skills client
  pub skills : Option (SkillRequest → Outcome RunResult)
  pub has_alerting : Bool
  pub duration : String → ℕ
  -- `sanitizeExternalContent(content, sessionId, source)`
  pub sanitize :
      String
      → String
      → String
      → SanitizerService
      → SanitizerService × Outcome SanitizeExternalContentResult

-- the value of which no property can be read
abbrev pub is_null : Json → Bool
is_null null = true
is_null _ = false

-- `a || b` of texts
abbrev pub or_text : String → String → String
or_text a b = if a == "" then b else a

abbrev tool_images : List (String × String)
tool_images =
    ("shell_exec", "tessera/shell-exec:latest")
    ∷ ("http_request", "tessera/http-request:latest")
    ∷ ("file_read", "tessera/file-read:latest")
    ∷ ("file_write", "tessera/file-write:latest")
    ∷ []

image_in : List (String × String) → String → Option String
image_in [] id = none
image_in ((k, v) ∷ m) id = if k == id then some v else image_in m id

unfoldable pub image_of : String → String
unfolding image_in
image_of tool_id = or_else (image_in tool_images tool_id) ("tessera/" <> (tool_id <> ":latest"))

abbrev pub log : String → List (String × Json) → AuditSeverity → Effect
log event_type payload severity =
    audit (record { event_type = event_type; payload = payload; severity = severity })

module _ (env : Env) where
  open env use {to_text, codec, show, get_secret_ref, inject_credential, check_url, duration}

  -- `void this.alertingService?.fireAlert(…)`
  abbrev pub fire : String → List (String × String) → List Effect
  fire event_type details =
      if env.has_alerting
      then alert (record { event_type = event_type; details = details }) ∷ []
      else []

  -- the loop over `credential_refs`; `throws` leaves the `try` block
  enrich : List String → Fields → Option String → Outcome (Fields × Option String)
  enrich [] enriched first_ref = returns (enriched, first_ref)
  enrich (name ∷ names) enriched first_ref = elim (get_secret_ref "skill-creds" name) [
    | throws message ↦ throws message
    | returns none ↦ enrich names enriched first_ref
    | returns (some id) ↦
        let placeholder = str ("__VAULT_REF:" <> (id <> "__")) in
        enrich names (if id == "" then enriched else set_field enriched name placeholder)
          (if id == "" then first_ref else some (or_else first_ref id))
  ]

  abbrev stringify_obj : Fields → String
  stringify_obj fields = codec.stringify (obj fields)

  -- the `try` block that injects credentials: the input as it was, if anything in it throws
  inject : String → List String → String
  unfolding enrich
  inject input_json refs = elim (codec.parse input_json) [
    | some (obj fields) ↦ elim (enrich refs fields none) [
      | throws _ ↦ input_json
      | returns (enriched, none) ↦ stringify_obj enriched
      | returns (enriched, some first_ref) ↦
          elim (inject_credential first_ref (stringify_obj enriched) "") [
            | throws _ ↦ input_json
            | returns mutated ↦ mutated
          ]
    ]
    | _ ↦ input_json
  ]

  unfoldable pub prepare_input : PendingToolCall → String
  unfolding inject
  prepare_input pc =
      let input_json = codec.stringify pc.input in
      elim pc.skill_route [
        | none ↦ input_json
        | some route ↦
            if non_empty route.credential_refs
            then inject input_json route.credential_refs
            else input_json
      ]

  -- `parsedInput.url ?? ""`, as a text, which `new URL` makes of it
  abbrev url_text : Option Json → String
  url_text none = ""
  url_text (some null) = ""
  url_text (some (str s)) = s
  url_text (some v) = to_text v

  abbrev pub url_of : Json → String
  url_of (obj fields) = url_text (get_field fields "url")
  url_of _ = ""

  -- Denied before it runs.
  unfoldable pub denied_call : PendingToolCall → List Effect × ToolCallResult
  denied_call pc =
      let denial = elim pc.decision.reason as (λ _. String) [
        | none ↦ "[TOOL EXECUTION DENIED BY USER]"
        | some reason ↦
            if reason == ""
            then "[TOOL EXECUTION DENIED BY USER]"
            else "[TOOL DENIED BY POLICY: " <> (reason <> "]")
      ] in
      (
        log "TOOL_RESULT"
              (("call_id", str pc.call_id)
                ∷ ("tool_id", str pc.tool_id)
                ∷ ("result", str denial)
                ∷ ("duration_ms", num 0)
                ∷ [])
              warn
            ∷ [],
        record {
          call_id = pc.call_id;
          tool_id = pc.tool_id;
          success = false;
          result = denial;
          duration_ms = 0;
          error_message = none;
          is_denied = true;
        },
      )
