-- ===== src/Audit/Rules.antt =====
-- packages/audit-system/src/alert-rules.ts. A cost is at 80% of the cap or more if ten times the cost
-- is at least eight times the cap.

use secure_claw.Base.{
  ℕ, ◌*◌, String, ◌<>◌, not, Option, none, some, List, [], ◌∷◌, ◌==◌, if◌then◌else◌, leb, ltb,
}
use secure_claw.Base.Json.{Json, num, str, Fields, end, field}
use secure_claw.Audit.{AuditEnv}

-- `AuditEvent`
pub record LoggedEvent : Type 0 where
  pub id : ℕ
  pub event_type : String
  pub session_id : Option String
  pub user_id : Option String
  pub payload : Json
  pub severity : String
  pub created_at_unix_ms : ℕ

pub record AlertContext : Type 0 where
  pub tool_calls_last_minute : ℕ
  pub auth_failures_last_five_min : ℕ
  pub daily_cost_usd : ℕ
  pub cost_cap_usd : ℕ
  pub largest_output_bytes_this_session : ℕ

pub record AlertFinding : Type 0 where
  pub rule_id : String
  pub message : String
  pub severity : String
  pub context : Fields

pub record AlertRule : Type 0 where
  pub id : String
  pub description : String
  pub severity : String
  pub evaluate : LoggedEvent → AlertContext → Option AlertFinding

-- a finding whose context is the payload, for events of one type
abbrev pub on_type : String → String → String → String → LoggedEvent → Option AlertFinding
on_type event_type id severity message event =
    if event.event_type == event_type
    then some (record {
      rule_id = id;
      message = message;
      severity = severity;
      context = field "payload" event.payload end;
    })
    else none

-- `JSON.stringify` leaves out a field that is undefined
abbrev session_field : Option String → Fields
session_field none = end
session_field (some id) = field "session_id" (str id) end

unfoldable pub rapid_tool_calls : AuditEnv → LoggedEvent → AlertContext → Option AlertFinding
rapid_tool_calls env event ctx =
    if not (event.event_type == "TOOL_CALL")
    then none
    else if leb ctx.tool_calls_last_minute 20
    then none
    else some (record {
      rule_id = "RAPID_TOOL_CALLS";
      message =
          "Unusually rapid tool calls: " <> (env.show ctx.tool_calls_last_minute <> " in last 60s");
      severity = "ERROR";
      context = field "count" (num ctx.tool_calls_last_minute) (session_field event.session_id);
    })

unfoldable pub cost_cap_warning : AuditEnv → LoggedEvent → AlertContext → Option AlertFinding
cost_cap_warning env event ctx =
    if leb ctx.cost_cap_usd 0
    then none
    else if ltb (10 * ctx.daily_cost_usd) (8 * ctx.cost_cap_usd)
    then none
    else some (record {
      rule_id = "COST_CAP_WARNING";
      message =
          "Daily cost at "
          <> (env.percent ctx.daily_cost_usd ctx.cost_cap_usd
              <> ("% of cap ($"
                  <> (env.to_fixed 4 ctx.daily_cost_usd
                      <> (" / $" <> (env.to_fixed 2 ctx.cost_cap_usd <> ")")))));
      severity = "WARN";
      context = field "current_usd" (num ctx.daily_cost_usd) (
          field "cap_usd" (num ctx.cost_cap_usd)
            (field "percent" (env.ratio ctx.daily_cost_usd ctx.cost_cap_usd) end));
    })

unfoldable pub repeated_auth_failure : AuditEnv → LoggedEvent → AlertContext → Option AlertFinding
repeated_auth_failure env event ctx =
    if not (event.event_type == "AUTH_FAILED")
    then none
    else if leb ctx.auth_failures_last_five_min 5
    then none
    else some (record {
      rule_id = "REPEATED_AUTH_FAILURE";
      message =
          "Possible brute force: "
          <> (env.show ctx.auth_failures_last_five_min <> " auth failures in 5 minutes");
      severity = "CRITICAL";
      context = field "count" (num ctx.auth_failures_last_five_min) end;
    })

-- `ALERT_RULES`
unfoldable pub alert_rules : AuditEnv → List AlertRule
unfolding rapid_tool_calls cost_cap_warning repeated_auth_failure
alert_rules env =
    record {
      id = "INJECTION_DETECTED";
      description = "Prompt injection pattern detected in input";
      severity = "CRITICAL";
      evaluate = λ event ctx.
          on_type "INJECTION_DETECTED" "INJECTION_DETECTED" "CRITICAL"
            "Prompt injection attempt detected and blocked" event;
    }
    ∷ record {
      id = "PLAINTEXT_SECRET_FOUND";
      description = "Plaintext credential found on disk";
      severity = "CRITICAL";
      evaluate = λ event ctx.
          on_type "PLAINTEXT_SECRET_DETECTED" "PLAINTEXT_SECRET_FOUND" "CRITICAL"
            "Plaintext secret detected — credential exposure risk" event;
    }
    ∷ record {
      id = "RAPID_TOOL_CALLS";
      description = "More than 20 tool calls in 60 seconds from one session";
      severity = "ERROR";
      evaluate = rapid_tool_calls env;
    }
    ∷ record {
      id = "COST_CAP_WARNING";
      description = "Daily cost has exceeded 80% of configured cap";
      severity = "WARN";
      evaluate = cost_cap_warning env;
    }
    ∷ record {
      id = "COST_CAP_EXCEEDED";
      description = "Daily cost cap exceeded";
      severity = "ERROR";
      evaluate = λ event ctx.
          on_type "COST_CAP_EXCEEDED" "COST_CAP_EXCEEDED" "ERROR"
            "Daily API cost cap exceeded — agent will refuse further LLM calls" event;
    }
    ∷ record {
      id = "REPEATED_AUTH_FAILURE";
      description = "More than 5 authentication failures in 5 minutes";
      severity = "CRITICAL";
      evaluate = repeated_auth_failure env;
    }
    ∷ record {
      id = "SANDBOX_ERROR";
      description = "Sandbox execution failure";
      severity = "ERROR";
      evaluate = λ event ctx.
          on_type "SANDBOX_ERROR" "SANDBOX_ERROR" "ERROR" "Sandbox container execution failed"
            event;
    }
    ∷ []
