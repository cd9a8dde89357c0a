-- ===== src/Audit/Events/Stored.antt =====
-- What a call of `logEvent` leaves in the tables, whether it returns or throws.
use secure_claw.Base.{
  ℕ, suc, String, ◌≡◌, refl, sym, ap, ◌∙◌, Bool, true, false, Option, none, some, List, [], ◌∷◌,
  ◌++◌, map, ◌==◌, if◌then◌else◌, arith, length, All, All-snoc, append-nil, if_cases,
}
use mathlib.Core.List.{map-append, append_assoc}
use secure_claw.Base.Json.{obj}
use secure_claw.Sanitizer.Service.{Outcome, returns, throws}
use secure_claw.Audit.{
  EventRow, AlertRow, Db, AuditEnv, is_event_severity, is_alert_severity, insert_event,
  insert_alert,
}
use secure_claw.Audit.Rules.{
  LoggedEvent, AlertContext, AlertFinding, AlertRule, on_type, rapid_tool_calls, cost_cap_warning,
  repeated_auth_failure, alert_rules,
}
use secure_claw.Audit.Events.{
  LogEventParams, LogEventResult, build_alert_context, event_of, result_of, after_alert, on_finding,
  evaluate_rules, after_insert, log_event,
}
use secure_claw.Audit.Events.Alerts.{row_of, with_event}

-- A finding that the table takes is critical.
abbrev IsLabelled : Option AlertFinding → Type 0
IsLabelled none = Unit
IsLabelled (some finding) =
    is_alert_severity finding.severity ≡ true → finding.severity ≡ "CRITICAL"

abbrev rule_ids : List AlertRow → List String
rule_ids = map (λ r. r.rule_id)

abbrev pub found_ids : List AlertFinding → List String
found_ids = map (λ f. f.rule_id)

-- An alert as `logEvent` stores it.
abbrev pub IsNew : Option String → ℕ → AlertRow → Type 0
IsNew session_id now r =
    (r.severity ≡ "CRITICAL")
    × (r.session_id ≡ session_id)
    × (r.created_at ≡ now)
    × (r.acknowledged ≡ false)

-- The findings of a result are those of the new rows.
abbrev FoundIn : Outcome (List AlertFinding) → List AlertRow → Type 0
FoundIn (throws message) new = Unit
FoundIn (returns triggered) new = found_ids triggered ≡ rule_ids new

abbrev alert_row : AuditEnv → Option String → ℕ → AlertFinding → List AlertRow → AlertRow
alert_row env session_id now finding rows = record {
  id = suc (length rows);
  rule_id = finding.rule_id;
  severity = finding.severity;
  session_id = session_id;
  message = finding.message;
  context = env.codec.stringify (obj finding.context);
  created_at = now;
  acknowledged = false;
}

module _ (env : AuditEnv) (event : LoggedEvent) (now : ℕ) (base : List AlertRow) where
  abbrev Extends : List AlertRow × Outcome (List AlertFinding) → Type 0
  Extends (rows, outcome) =
      (new : List AlertRow) × (rows ≡ base ++ new)
      × All (IsNew event.session_id now) new
      × FoundIn outcome new

  on_finding-Extends :
      (o : Option AlertFinding) (state : List AlertRow × Outcome (List AlertFinding))
      → IsLabelled o
      → Extends state
      → Extends (on_finding env event.session_id now o state)
  unfolding on_finding insert_alert
  on_finding-Extends none state l h = h
  on_finding-Extends (some finding) (rows, throws message) l h = h
  on_finding-Extends (some finding) (rows, returns triggered) l (new, e, news, found) =
      let row = alert_row env event.session_id now finding rows in
      if_cases (λ o. Extends (after_alert finding triggered rows o))
        (is_alert_severity finding.severity)
        (λ taken. (
          new ++ row ∷ [],
          ap (λ xs. xs ++ row ∷ []) e ∙ append_assoc base new (row ∷ []),
          All-snoc (IsNew event.session_id now) new {x = row} news (l taken, refl, refl, refl),
          map-append (λ f. f.rule_id) triggered (finding ∷ [])
              ∙ (ap (λ ids. ids ++ finding.rule_id ∷ []) found
                  ∙ sym (map-append (λ r. r.rule_id) new (row ∷ []))),
        ))
        (λ refused. (new, e, news, tt))

  evaluate_rules-Extends :
      (ctx : AlertContext) (rules : List AlertRule)
      (state : List AlertRow × Outcome (List AlertFinding))
      → All (λ rule. IsLabelled (rule.evaluate event ctx)) rules
      → Extends state
      → Extends (evaluate_rules env event ctx now rules state)
  unfolding evaluate_rules
  evaluate_rules-Extends ctx [] state l h = h
  evaluate_rules-Extends ctx (rule ∷ rules) state l h =
      evaluate_rules-Extends ctx rules
        (on_finding env event.session_id now (rule.evaluate event ctx) state) l.1
        (on_finding-Extends (rule.evaluate event ctx) state l.0 h)

guarded-IsLabelled :
    (b c : Bool) (finding : AlertFinding)
    → (is_alert_severity finding.severity ≡ true → finding.severity ≡ "CRITICAL")
    → IsLabelled (if b then none else if c then none else some finding)
guarded-IsLabelled true c finding h = tt
guarded-IsLabelled false true finding h = tt
guarded-IsLabelled false false finding h = h

module _ (env : AuditEnv) (event : LoggedEvent) (ctx : AlertContext) where
  on_type-IsLabelled :
      (event_type id severity message : String)
      → (is_alert_severity severity ≡ true → severity ≡ "CRITICAL")
      → IsLabelled (on_type event_type id severity message event)
  on_type-IsLabelled event_type id severity message h =
      if_cases IsLabelled (event.event_type == event_type) (λ e. h) (λ e. tt)

  alert_rules-IsLabelled : All (λ rule. IsLabelled (rule.evaluate event ctx)) (alert_rules env)
  unfolding alert_rules rapid_tool_calls cost_cap_warning repeated_auth_failure is_alert_severity
  alert_rules-IsLabelled = (
    on_type-IsLabelled _ _ _ _ (λ e. refl),
    (
      on_type-IsLabelled _ _ _ _ (λ e. refl),
      (
        guarded-IsLabelled _ _ _ (λ e. absurd (ground arith)),
        (
          guarded-IsLabelled _ _ _ (λ e. absurd (ground arith)),
          (
            on_type-IsLabelled _ _ _ _ (λ e. absurd (ground arith)),
            (
              guarded-IsLabelled _ _ _ (λ e. refl),
              (on_type-IsLabelled _ _ _ _ (λ e. absurd (ground arith)), tt),
            ),
          ),
        ),
      ),
    ),
  )

-- The findings of a call's result are those of the new rows.
abbrev ReportedIn : Outcome LogEventResult → List AlertRow → Type 0
ReportedIn (throws message) new = Unit
ReportedIn (returns result) new = found_ids result.alerts_triggered ≡ rule_ids new

result_of-ReportedIn :
    (n : ℕ) (o : Outcome (List AlertFinding)) (new : List AlertRow)
    → FoundIn o new
    → ReportedIn (result_of n o) new
result_of-ReportedIn n (throws message) new h = h
result_of-ReportedIn n (returns triggered) new h = h

-- The tables after a call: the event's row at the end, and new alerts of the call's session and
-- time, critical and not acknowledged, which are the findings of the result if there is one.
abbrev pub Stores : AuditEnv → ℕ → LogEventParams → Db → Db × Outcome LogEventResult → Type 0
Stores env now params db (stored, outcome) =
    (stored.audit_events ≡ db.audit_events ++ row_of env params now db ∷ [])
    × (stored.cost_ledger ≡ db.cost_ledger)
    × (stored.team_quotas ≡ db.team_quotas)
    × (new : List AlertRow) × (stored.alerts ≡ db.alerts ++ new)
    × All (IsNew params.session_id now) new
    × ReportedIn outcome new

after_insert-Stores :
    (env : AuditEnv) (now read_at : ℕ) (params : LogEventParams) (db : Db)
    → Stores env now params db (
        after_insert env now read_at params db
          (returns (with_event env params now db).audit_events))
unfolding after_insert
after_insert-Stores env now read_at params db =
    let event = event_of params now db in
    let ctx = build_alert_context env read_at params.session_id (with_event env params now db) in
    let (new, e, news, found) =
      evaluate_rules-Extends env event now db.alerts ctx (alert_rules env) (db.alerts, returns [])
        (alert_rules-IsLabelled env event ctx) ([], sym (append-nil db.alerts), tt, refl) in
    (refl, refl, refl, new, e, news, result_of-ReportedIn _ _ new found)

-- Whether `logEvent` returns or throws, an event whose severity the table takes is written at the
-- end of the log under the next id, the costs and the quotas stay, and every alert that is added
-- has the severity CRITICAL, the session and the time of the event, and is not acknowledged; if
-- there is a result, its findings are those of the added alerts, in their order.
pub log_event-Stores :
    (env : AuditEnv) (now read_at : ℕ) (params : LogEventParams) (db : Db)
    → is_event_severity params.severity ≡ true
    → Stores env now params db (log_event env now read_at params db)
unfolding log_event insert_event
log_event-Stores env now read_at params db taken =
    if_cases {A = Outcome (List EventRow)}
      (λ o. Stores env now params db (after_insert env now read_at params db o))
      (is_event_severity params.severity) (λ e. after_insert-Stores env now read_at params db)
      (λ refused. absurd (ground arith))

-- An event with any other severity leaves the database as it was.
pub log_event-Rejects :
    (env : AuditEnv) (now read_at : ℕ) (params : LogEventParams) (db : Db)
    → is_event_severity params.severity ≡ false
    → log_event env now read_at params db ≡ (db, throws "CHECK constraint failed")
unfolding log_event insert_event after_insert
log_event-Rejects env now read_at params db refused = rw refused refl
