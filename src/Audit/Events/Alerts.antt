-- ===== src/Audit/Events/Alerts.antt =====
-- What the rules store and return after an event.
use secure_claw.Base.{
  ℕ, suc, ◌*◌, String, ◌≡◌, refl, ap, ◌∙◌, Bool, true, false, not, ◌&&◌, ◌||◌, Option, none, some,
  List, [], ◌∷◌, ◌++◌, ◌==◌, arith, leb, length, any, if_cases,
}
use secure_claw.Sanitizer.Service.{Outcome, returns, throws}
use secure_claw.Audit.{
  EventRow, AlertRow, Db, AuditEnv, is_event_severity, is_alert_severity, insert_event,
  insert_alert,
}
use secure_claw.Audit.Rules.{
  LoggedEvent, AlertContext, AlertFinding, AlertRule, on_type, rapid_tool_calls, cost_cap_warning,
  repeated_auth_failure, alert_rules,
}
use secure_claw.Audit.Events.{
  LogEventParams, build_alert_context, event_of, result_of, on_finding, evaluate_rules,
  after_insert, log_event,
}

abbrev pub is_returned {ℓ} : {A : Type ℓ} → Outcome A → Bool
is_returned (returns _) = true
is_returned (throws _) = false

-- the row of a call's event, and the database with it
abbrev pub row_of : AuditEnv → LogEventParams → ℕ → Db → EventRow
row_of env params now db = record {
  id = suc (length db.audit_events);
  event_type = params.event_type;
  session_id = params.session_id;
  user_id = params.user_id;
  payload = env.codec.stringify params.payload;
  severity = params.severity;
  created_at = now;
}

abbrev pub with_event : AuditEnv → LogEventParams → ℕ → Db → Db
with_event env params now db = record db {
  audit_events = db.audit_events ++ row_of env params now db ∷ [];
}

-- The conditions under which a rule with the severity WARN or ERROR has a finding.
abbrev pub refuses_alert : LoggedEvent → AlertContext → Bool
refuses_alert event ctx =
    ((event.event_type == "TOOL_CALL") && leb 21 ctx.tool_calls_last_minute)
    || (leb 1 ctx.cost_cap_usd && leb (8 * ctx.cost_cap_usd) (10 * ctx.daily_cost_usd))
    || (event.event_type == "COST_CAP_EXCEEDED")
    || (event.event_type == "SANDBOX_ERROR")

module _ (env : AuditEnv) (event : LoggedEvent) (ctx : AlertContext) (now : ℕ) where
  -- The finding has a severity that the table does not take.
  abbrev pub is_refused : Option AlertFinding → Bool
  is_refused none = false
  is_refused (some finding) = not (is_alert_severity finding.severity)

  on_finding-Returns :
      (o : Option AlertFinding) (state : List AlertRow × Outcome (List AlertFinding))
      → is_returned (on_finding env event.session_id now o state).1
        ≡ (is_returned state.1 && not (is_refused o))
  unfolding on_finding insert_alert
  on_finding-Returns none (rows, throws message) = refl
  on_finding-Returns none (rows, returns triggered) = refl
  on_finding-Returns (some finding) (rows, throws message) = refl
  on_finding-Returns (some finding) (rows, returns triggered) = ground arith

  pub evaluate_rules-Returns :
      (rules : List AlertRule) (state : List AlertRow × Outcome (List AlertFinding))
      → is_returned (evaluate_rules env event ctx now rules state).1
        ≡ (is_returned state.1 && not (any (λ rule. is_refused (rule.evaluate event ctx)) rules))
  unfolding evaluate_rules
  evaluate_rules-Returns [] state = ground arith
  evaluate_rules-Returns (rule ∷ rules) state = ground (
    arith,
    on_finding-Returns (rule.evaluate event ctx) state,
    evaluate_rules-Returns rules
        (on_finding env event.session_id now (rule.evaluate event ctx) state),
  )

  critical_is_stored :
      (event_type id message : String)
      → is_refused (on_type event_type id "CRITICAL" message event) ≡ false
  unfolding is_alert_severity
  critical_is_stored event_type id message = ground arith

  error_is_refused :
      (event_type id message : String)
      → is_refused (on_type event_type id "ERROR" message event) ≡ (event.event_type == event_type)
  unfolding is_alert_severity
  error_is_refused event_type id message = ground arith

  rapid_is_refused :
      is_refused (rapid_tool_calls env event ctx)
      ≡ ((event.event_type == "TOOL_CALL") && leb 21 ctx.tool_calls_last_minute)
  unfolding is_alert_severity rapid_tool_calls
  rapid_is_refused = ground arith

  cost_is_refused :
      is_refused (cost_cap_warning env event ctx)
      ≡ (leb 1 ctx.cost_cap_usd && leb (8 * ctx.cost_cap_usd) (10 * ctx.daily_cost_usd))
  unfolding is_alert_severity cost_cap_warning
  cost_is_refused = ground arith

  auth_is_stored : is_refused (repeated_auth_failure env event ctx) ≡ false
  unfolding is_alert_severity repeated_auth_failure
  auth_is_stored = ground arith

  pub refused_rules :
      any (λ rule. is_refused (rule.evaluate event ctx)) (alert_rules env) ≡ refuses_alert event ctx
  unfolding alert_rules
  refused_rules =
      rw
        (
          critical_is_stored "INJECTION_DETECTED" "INJECTION_DETECTED",
          critical_is_stored "PLAINTEXT_SECRET_DETECTED" "PLAINTEXT_SECRET_FOUND",
          rapid_is_refused,
          cost_is_refused,
          auth_is_stored,
          error_is_refused "COST_CAP_EXCEEDED" "COST_CAP_EXCEEDED",
          error_is_refused "SANDBOX_ERROR" "SANDBOX_ERROR",
        )
        (ground arith)

pub result_of-Returns :
    (n : ℕ) (o : Outcome (List AlertFinding)) → is_returned (result_of n o) ≡ is_returned o
result_of-Returns n (throws message) = refl
result_of-Returns n (returns triggered) = refl

after_insert-Returns :
    (env : AuditEnv) (now read_at : ℕ) (params : LogEventParams) (db : Db)
    → is_returned
        (after_insert env now read_at params db
          (returns (with_event env params now db).audit_events)).1
      ≡ not (
          refuses_alert
            (event_of params now db)
            (build_alert_context env read_at params.session_id (with_event env params now db)))
unfolding after_insert
after_insert-Returns env now read_at params db =
    let event = event_of params now db in
    let ctx = build_alert_context env read_at params.session_id (with_event env params now db) in
    result_of-Returns _ _
    ∙ (evaluate_rules-Returns env event ctx now (alert_rules env) (db.alerts, returns [])
        ∙ ap not (refused_rules env event ctx now))

-- `logEvent` returns a result exactly if the severity of the event is one of the four that the table
-- takes and no rule with the severity WARN or ERROR has a finding: the event is no COST_CAP_EXCEEDED
-- and no SANDBOX_ERROR, it is not a tool call with more than 20 of its session in the last minute,
-- the event itself counted, and the costs of the day are below 80% of the cap.
pub log_event-Returns :
    (env : AuditEnv) (now read_at : ℕ) (params : LogEventParams) (db : Db)
    → is_returned (log_event env now read_at params db).1 ≡ (
        is_event_severity params.severity
        && not (
            refuses_alert
              (event_of params now db)
              (build_alert_context env read_at params.session_id (with_event env params now db))))
unfolding log_event insert_event after_insert
log_event-Returns env now read_at params db =
    if_cases {A = Outcome (List EventRow)}
      (λ o. is_returned (after_insert env now read_at params db o).1 ≡ (
        is_event_severity params.severity
        && not (
            refuses_alert (event_of params now db)
              (build_alert_context env read_at params.session_id (with_event env params now db)))))
      (is_event_severity params.severity)
      (λ taken. after_insert-Returns env now read_at params db ∙ rw (taken) refl)
      (λ refused. rw (refused) refl)
