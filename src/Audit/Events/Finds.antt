-- ===== src/Audit/Events/Finds.antt =====
-- Which findings there are, where all of them can be stored.
use secure_claw.Base.{
  ℕ, suc, length, ◌*◌, String, ◌≡◌, refl, sym, ap, ◌∙◌, true, false, not, ◌&&◌, Option, none, some,
  List, [], ◌∷◌, ◌++◌, ◌==◌, if◌then◌else◌, arith, leb, append-nil, if_cases, ◌<>◌,
}
use mathlib.Core.List.{append_assoc}
use secure_claw.Base.Json.{num, field, end}
use secure_claw.Sanitizer.Service.{Outcome, returns, throws}
use secure_claw.Audit.{
  AlertRow, Db, AuditEnv, is_event_severity, insert_alert, insert_event, EventRow,
}
use secure_claw.Audit.Rules.{
  LoggedEvent, AlertContext, AlertFinding, AlertRule, on_type, rapid_tool_calls, cost_cap_warning,
  repeated_auth_failure, alert_rules,
}
use secure_claw.Audit.Events.{
  LogEventParams, LogEventResult, build_alert_context, event_of, result_of, after_alert, on_finding,
  evaluate_rules, after_insert, log_event,
}
use secure_claw.Audit.Events.Alerts.{
  refuses_alert, with_event, is_returned, evaluate_rules-Returns, refused_rules,
}

abbrev Finds : List AlertFinding → Outcome (List AlertFinding) → Type 0
Finds findings (throws message) = Unit
Finds findings (returns triggered) = triggered ≡ findings

abbrev listed : Option AlertFinding → List AlertFinding
listed none = []
listed (some finding) = finding ∷ []

module _ (env : AuditEnv) (event : LoggedEvent) (ctx : AlertContext) (now : ℕ) where
  on_finding-Finds :
      (o : Option AlertFinding) (state : List AlertRow × Outcome (List AlertFinding))
      (findings : List AlertFinding)
      → Finds findings state.1
      → Finds (findings ++ listed o) (on_finding env event.session_id now o state).1
  unfolding on_finding
  on_finding-Finds none (rows, throws message) findings h = tt
  on_finding-Finds none (rows, returns triggered) findings h = h ∙ sym (append-nil findings)
  on_finding-Finds (some finding) (rows, throws message) findings h = tt
  on_finding-Finds (some finding) (rows, returns triggered) findings h =
      after_alert-Finds (insert_alert finding.rule_id _ event.session_id _ _ now rows)
    where
      after_alert-Finds :
          (o : Outcome (List AlertRow))
          → Finds (findings ++ finding ∷ []) (after_alert finding triggered rows o).1
      after_alert-Finds (throws message) = tt
      after_alert-Finds (returns stored) = ap (λ xs. xs ++ finding ∷ []) h

  abbrev all_findings : List AlertRule → List AlertFinding
  all_findings [] = []
  all_findings (rule ∷ rules) = listed (rule.evaluate event ctx) ++ all_findings rules

  evaluate_rules-Finds :
      (rules : List AlertRule) (state : List AlertRow × Outcome (List AlertFinding))
      (findings : List AlertFinding)
      → Finds findings state.1
      → Finds (findings ++ all_findings rules) (evaluate_rules env event ctx now rules state).1
  unfolding evaluate_rules
  evaluate_rules-Finds [] state findings h = rw (append-nil findings) h
  evaluate_rules-Finds (rule ∷ rules) state findings h =
      rw (← append_assoc findings (listed (rule.evaluate event ctx)) (all_findings rules)) (
        evaluate_rules-Finds rules
          (on_finding env event.session_id now (rule.evaluate event ctx) state)
          (findings ++ listed (rule.evaluate event ctx))
          (on_finding-Finds (rule.evaluate event ctx) state findings h))

-- a critical finding whose context is the payload of the event
abbrev with_payload : String → String → LoggedEvent → AlertFinding
with_payload rule_id message event = record {
  rule_id = rule_id;
  message = message;
  severity = "CRITICAL";
  context = field "payload" event.payload end;
}

abbrev brute_force : AuditEnv → AlertContext → AlertFinding
brute_force env ctx = record {
  rule_id = "REPEATED_AUTH_FAILURE";
  message =
      "Possible brute force: "
      <> (env.show ctx.auth_failures_last_five_min <> " auth failures in 5 minutes");
  severity = "CRITICAL";
  context = field "count" (num ctx.auth_failures_last_five_min) end;
}

-- The findings with the severity CRITICAL.
abbrev pub critical_findings : AuditEnv → LoggedEvent → AlertContext → List AlertFinding
critical_findings env event ctx =
    (if event.event_type == "INJECTION_DETECTED"
      then with_payload "INJECTION_DETECTED" "Prompt injection attempt detected and blocked" event
        ∷ []
      else [])
    ++ ((if event.event_type == "PLAINTEXT_SECRET_DETECTED"
          then with_payload "PLAINTEXT_SECRET_FOUND"
              "Plaintext secret detected — credential exposure risk" event
            ∷ []
          else [])
        ++ (if (event.event_type == "AUTH_FAILED") && leb 6 ctx.auth_failures_last_five_min
            then brute_force env ctx ∷ []
            else []))

module _ (env : AuditEnv) (event : LoggedEvent) (ctx : AlertContext) where
  listed-on_type :
      (event_type id message : String)
      → listed (on_type event_type id "CRITICAL" message event)
        ≡ (if event.event_type == event_type then with_payload id message event ∷ [] else [])
  listed-on_type event_type id message = ground arith

  listed-quiet :
      (event_type id severity message : String)
      → (event.event_type == event_type) ≡ false
      → listed (on_type event_type id severity message event) ≡ []
  listed-quiet event_type id severity message h = ground arith

  listed-rapid :
      ((event.event_type == "TOOL_CALL") && leb 21 ctx.tool_calls_last_minute) ≡ false
      → listed (rapid_tool_calls env event ctx) ≡ []
  unfolding rapid_tool_calls
  listed-rapid h = ground arith

  listed-cost :
      (leb 1 ctx.cost_cap_usd && leb (8 * ctx.cost_cap_usd) (10 * ctx.daily_cost_usd)) ≡ false
      → listed (cost_cap_warning env event ctx) ≡ []
  unfolding cost_cap_warning
  listed-cost h = ground arith

  listed-auth : listed (repeated_auth_failure env event ctx) ≡ (
      if (event.event_type == "AUTH_FAILED") && leb 6 ctx.auth_failures_last_five_min
      then brute_force env ctx ∷ []
      else [])
  unfolding repeated_auth_failure
  listed-auth = ground arith

  all_findings-critical :
      (now : ℕ)
      → refuses_alert event ctx ≡ false
      → all_findings env event ctx now (alert_rules env) ≡ critical_findings env event ctx
  unfolding alert_rules
  all_findings-critical now h =
      rw
        (
          listed-on_type "INJECTION_DETECTED" "INJECTION_DETECTED",
          listed-on_type "PLAINTEXT_SECRET_DETECTED" "PLAINTEXT_SECRET_FOUND",
          listed-rapid (ground arith),
          listed-cost (ground arith),
          listed-quiet "COST_CAP_EXCEEDED" "COST_CAP_EXCEEDED" "ERROR" _ (ground arith),
          listed-auth,
          listed-quiet "SANDBOX_ERROR" "SANDBOX_ERROR" "ERROR" _ (ground arith),
          append-nil,
        )
        refl

-- A result under an event's id with these findings.
abbrev pub ReturnsWith : ℕ → List AlertFinding → Outcome LogEventResult → Type 0
ReturnsWith event_id findings outcome =
    outcome ≡ returns (record { event_id = event_id; success = true; alerts_triggered = findings })

result_of-ReturnsWith :
    (n : ℕ) (findings : List AlertFinding) (o : Outcome (List AlertFinding))
    → is_returned o ≡ true
    → Finds findings o
    → ReturnsWith n findings (result_of n o)
result_of-ReturnsWith n findings (throws message) r h = absurd (ground arith)
result_of-ReturnsWith n findings (returns triggered) r h = ap (λ fs. result_of n (returns fs)) h

after_insert-ReturnsWith :
    (env : AuditEnv) (now read_at : ℕ) (params : LogEventParams) (db : Db)
    → let event = event_of params now db in
      let ctx = build_alert_context env read_at params.session_id (with_event env params now db) in
      refuses_alert event ctx ≡ false
      → ReturnsWith
          (suc (length db.audit_events))
          (critical_findings env event ctx)
          (after_insert env now read_at params db
            (returns (with_event env params now db).audit_events)).1
unfolding after_insert
after_insert-ReturnsWith env now read_at params db quiet =
    let event = event_of params now db in
    let ctx = build_alert_context env read_at params.session_id (with_event env params now db) in
    result_of-ReturnsWith _ (critical_findings env event ctx) _
      (evaluate_rules-Returns env event ctx now (alert_rules env) (db.alerts, returns [])
        ∙ ap not (refused_rules env event ctx now ∙ quiet))
      (rw (← all_findings-critical env event ctx now quiet)
        (evaluate_rules-Finds env event ctx now (alert_rules env) (db.alerts, returns []) [] refl))

-- If the event's severity is one that the table takes and no rule with the severity WARN or ERROR
-- has a finding, a call returns success, the id of the event's row, and as its findings, in this
-- order, with their messages and contexts, those of the rules with the severity CRITICAL whose
-- condition holds: a detected injection, a plaintext secret, and a failed authentication that is
-- at least the sixth in five minutes, the event itself counted.
pub log_event-ReturnsWith :
    (env : AuditEnv) (now read_at : ℕ) (params : LogEventParams) (db : Db)
    → let event = event_of params now db in
      let ctx = build_alert_context env read_at params.session_id (with_event env params now db) in
      is_event_severity params.severity ≡ true
      → refuses_alert event ctx ≡ false
      → ReturnsWith
          (suc (length db.audit_events))
          (critical_findings env event ctx)
          (log_event env now read_at params db).1
unfolding log_event insert_event
log_event-ReturnsWith env now read_at params db taken quiet =
    if_cases {A = Outcome (List EventRow)}
      (λ o.
        ReturnsWith (suc (length db.audit_events))
          (critical_findings env (event_of params now db)
            (build_alert_context env read_at params.session_id (with_event env params now db)))
          (after_insert env now read_at params db o).1)
      (is_event_severity params.severity)
      (λ e. after_insert-ReturnsWith env now read_at params db quiet)
      (λ refused. absurd (ground arith))
