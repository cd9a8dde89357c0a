-- ===== src/Agent/Executor/Single.antt =====
-- `executeSingleToolCall` and `executeToolCallsParallel` of
-- packages/agent-runtime/src/llm/tool-executor.ts.
use secure_claw.Base.{
  String, ◌<>◌, Bool, true, false, not, ◌&&◌, Option, none, some, List, [], ◌∷◌, ◌++◌, ◌==◌,
  if◌then◌else◌, nat_eq, first,
}
use secure_claw.Base.Text.{slice_to}
use secure_claw.Base.Json.{Json, str, num, bool}
use secure_claw.Sanitizer.{is_critical}
use secure_claw.Sanitizer.Service.{
  SanitizerService, SanitizeExternalContentResult, Outcome, returns, throws,
}
use secure_claw.Session.Context.{SessionContext}
use secure_claw.Agent.{
  info, warn, error, critical, ToolRequest, SkillRequest, Effect, run_tool, execute_skill,
}
use secure_claw.Agent.Executor.{
  Env, SkillToolRoute, is_null, PendingToolCall, ToolCallResult, UrlCheck, RunResult, or_text,
  image_of, log, fire, prepare_input, url_of, denied_call,
}

-- `${urlCheck.reason ?? urlCheck.category}`, and `${urlCheck.reason}`
abbrev or_undefined : Option String → String
or_undefined none = "undefined"
or_undefined (some s) = s

abbrev blocked_by : UrlCheck → String
blocked_by check = elim check.reason [ none ↦ or_undefined check.category | some reason ↦ reason ]

-- the route that `executeSingleToolCall` hands the call to
pub data Target : Type 0 where
  skill : (SkillRequest → Outcome RunResult) → SkillRequest → SkillToolRoute → Target
  sandbox : ToolRequest → Target

-- what a run leaves: its request, the audit event on how it went, its text, and whether it
-- succeeded
pub record Ran : Type 0 where
  pub request : Effect
  pub logged : Effect
  pub text : String
  pub success : Bool

module _ (env : Env) (ctx : SessionContext) (pc : PendingToolCall) where
  open env use {show, duration}

  abbrev ids : List (String × Json) → List (String × Json)
  ids rest = ("call_id", str pc.call_id) ∷ ("tool_id", str pc.tool_id) ∷ rest

  abbrev run_image : String
  run_image = elim pc.skill_route [
    | none ↦ image_of pc.tool_id
    | some route ↦ "skill:" <> (route.skill_id <> ("@" <> route.skill_version))
  ]

  -- the branch of a URL that is not safe
  unfoldable pub blocked_call : UrlCheck → List Effect × ToolCallResult
  blocked_call check = (
    log "POLICY_DENIED"
          (ids (
            ("reason", str (or_undefined check.reason))
            ∷ ("category", str (or_undefined check.category))
            ∷ []))
          warn
        ∷ (fire env "POLICY_DENIED" (("reason", "ssrf_block") ∷ ("tool_id", pc.tool_id) ∷ [])
            ++ log "TOOL_RESULT"
                (ids (
                  ("error", str ("URL blocked: " <> blocked_by check))
                  ∷ ("duration_ms", num (duration pc.call_id))
                  ∷ []))
                warn
              ∷ []),
    record {
      call_id = pc.call_id;
      tool_id = pc.tool_id;
      success = false;
      result = "[URL BLOCKED: " <> (blocked_by check <> "]");
      duration_ms = duration pc.call_id;
      error_message = some ("URL blocked: " <> or_undefined check.reason);
      is_denied = true;
    },
  )

  skill_request : SkillToolRoute → String → SkillRequest
  skill_request route input_json = record {
    skill_id = route.skill_id;
    skill_version = route.skill_version;
    tool_id = pc.tool_id;
    input_json = input_json;
    call_id = pc.call_id;
    session_id = ctx.session_id;
  }

  tool_request : String → ToolRequest
  tool_request input_json = record {
    call_id = pc.call_id;
    tool_id = pc.tool_id;
    image = image_of pc.tool_id;
    input_json = input_json;
    timeout_seconds = pc.decision.resource_limits.timeout_seconds;
    memory_bytes = pc.decision.resource_limits.memory_bytes;
    cpu_shares = pc.decision.resource_limits.cpu_shares;
    pids_limit = pc.decision.resource_limits.pids_limit;
    network_mode = if pc.tool_id == "http_request" then "restricted" else "none";
    workspace_volume = "tessera-workspace-" <> ctx.session_id;
  }

  -- a skill tool goes to the skills engine if there is a client, all else to the sandbox
  unfoldable pub target : String → Target
  unfolding skill_request tool_request
  target input_json = elim pc.skill_route [
    | none ↦ sandbox (tool_request input_json)
    | some route ↦ elim env.skills [
      | none ↦ sandbox (tool_request input_json)
      | some client ↦ skill client (skill_request route input_json) route
    ]
  ]

  run_text : RunResult → String
  run_text r =
      if r.timed_out
      then "[TIMEOUT after " <> (show (duration pc.call_id) <> "ms]")
      else or_text r.stdout (or_text r.stderr ("[Exit code: " <> (show r.exit_code <> "]")))

  result_payload : List (String × Json) → RunResult → Bool → List (String × Json)
  result_payload skill_id r success = ids (
      skill_id
      ++ (("exit_code", num r.exit_code)
          ∷ ("duration_ms", num (duration pc.call_id))
          ∷ ("timed_out", bool r.timed_out)
          ∷ ("oom_killed", bool r.oom_killed)
          ∷ ("success", bool success)
          ∷ []))

  -- the `catch` block
  failed_run : Effect → String → Ran
  failed_run request message = record {
    request = request;
    logged =
        log "TOOL_RESULT"
          (ids (
            ("error", str ("[SANDBOX ERROR: " <> (message <> "]")))
            ∷ ("duration_ms", num (duration pc.call_id))
            ∷ []))
          error;
    text = "[SANDBOX ERROR: " <> (message <> "]");
    success = false;
  }

  done_run : Effect → List (String × Json) → RunResult → Bool → Ran
  done_run request skill_id r success = record {
    request = request;
    logged = log "TOOL_RESULT" (result_payload skill_id r success) (if success then info else warn);
    text = run_text r;
    success = success;
  }

  -- the `try` block of the execution
  unfoldable pub run_target : Target → Ran
  unfolding failed_run done_run run_text result_payload
  run_target (skill client request route) = elim (client request) [
    | throws message ↦ failed_run (execute_skill request) message
    | returns r ↦
        done_run (execute_skill request) (("skill_id", str route.skill_id) ∷ []) r r.success
  ]
  run_target (sandbox request) = elim (env.run_tool request) [
    | throws message ↦ failed_run (run_tool request) message
    | returns r ↦ done_run (run_tool request) [] r (nat_eq r.exit_code 0 && not r.timed_out)
  ]

  unfoldable pub is_injection : SanitizeExternalContentResult → Bool
  is_injection scan =
      scan.injection_scan.is_suspicious && is_critical scan.injection_scan.highest_severity

  abbrev first_pattern : SanitizeExternalContentResult → List (String × Json)
  first_pattern scan = elim (first scan.injection_scan.matches) [
    | none ↦ []
    | some m ↦ ("pattern", str m.pattern_id) ∷ []
  ]

  -- what an injection in the output is reported by
  unfoldable pub report_injection : String → SanitizeExternalContentResult → List Effect
  report_injection text scan =
      log "INJECTION_DETECTED"
        (ids (first_pattern scan ++ ("source", str ("tool:" <> pc.tool_id)) ∷ [])) critical
      ∷ fire env "INJECTION_DETECTED"
          (("source", "tool_output") ∷ ("excerpt", env.strip_vault_refs (slice_to 256 text)) ∷ [])

  abbrev pub suppressed : String
  suppressed = "[TOOL OUTPUT SUPPRESSED: Prompt injection attempt detected]"

  unfoldable pub finish : Ran → SanitizeExternalContentResult → List Effect × ToolCallResult
  unfolding is_injection report_injection
  finish ran scan = (
    ran.request ∷ ran.logged ∷ (if is_injection scan then report_injection ran.text scan else []),
    record {
      call_id = pc.call_id;
      tool_id = pc.tool_id;
      success = ran.success;
      result = if is_injection scan then suppressed else scan.wrapped_content;
      duration_ms = duration pc.call_id;
      error_message = none;
      is_denied = false;
    },
  )

  -- what follows the scan of the output, whose exception ends the call
  unfoldable pub conclude :
      Effect
      → Ran
      → SanitizerService
      → Outcome SanitizeExternalContentResult
      → SanitizerService × List Effect × Outcome ToolCallResult
  unfolding finish
  conclude call ran s (throws message) = (s, call ∷ ran.request ∷ ran.logged ∷ [], throws message)
  conclude call ran s (returns scan) =
      let (effects, result) = finish ran scan in (s, call ∷ effects, returns result)

  abbrev pub call_event : Effect
  call_event =
      log "TOOL_CALL"
        (ids (("image", str run_image) ∷ ("input_preview", str pc.input_preview) ∷ [])) info

  -- Everything after the URL check: the TOOL_CALL event, the run, and the scan of its output.
  unfoldable pub run_checked :
      String → SanitizerService → SanitizerService × List Effect × Outcome ToolCallResult
  run_checked input_json s =
      let ran = run_target (target input_json) in
      let (s', scan) = env.sanitize ran.text ctx.session_id ("tool:" <> pc.tool_id) s in
      conclude call_event ran s' scan

  -- the URL check of `http_request`, on the parsed input
  unfoldable pub check_then_run :
      Option Json
      → String
      → SanitizerService
      → SanitizerService × List Effect × Outcome ToolCallResult
  check_then_run none input_json s = (s, [], throws "SyntaxError")
  check_then_run (some json) input_json s =
      let check = env.check_url (url_of env json) in
      if is_null json
      then (s, [], throws "TypeError")
      else if check.safe
      then run_checked input_json s
      else (s, (blocked_call check).0, returns (blocked_call check).1)

  unfoldable pub execute_single :
      SanitizerService → SanitizerService × List Effect × Outcome ToolCallResult
  execute_single s =
      if not pc.approved
      then (s, (denied_call env pc).0, returns (denied_call env pc).1)
      else if pc.tool_id == "http_request"
      then check_then_run (env.codec.parse (prepare_input env pc)) (prepare_input env pc) s
      else run_checked (prepare_input env pc) s

-- `Promise.all`, of the first promise and of the others
unfoldable pub gather :
    Outcome ToolCallResult → Outcome (List ToolCallResult) → Outcome (List ToolCallResult)
gather (throws message) results = throws message
gather (returns r) (throws message) = throws message
gather (returns r) (returns rs) = returns (r ∷ rs)

module _ (env : Env) (ctx : SessionContext) where
  -- The results, in the order of the calls. A call that throws rejects the whole `Promise.all`.
  unfoldable pub execute_all :
      List PendingToolCall
      → SanitizerService
      → SanitizerService × List Effect × Outcome (List ToolCallResult)
  execute_all [] s = (s, [], returns [])
  execute_all (pc ∷ pcs) s =
      let (s', effects, result) = execute_single env ctx pc s in
      let (s'', rest, results) = execute_all pcs s' in (s'', effects ++ rest, gather result results)
