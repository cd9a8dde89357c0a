-- ===== src/Audit/Events.antt =====
-- packages/audit-system/src/audit.service.ts: the event log and the alerts. `logEvent` reads the clock
-- twice, for the event and for the context of the rules. The order that SQLite gives rows of one
-- time is not documented, so that the sort by time is a parameter.
pub mod Alerts
pub mod Stored
pub mod Finds
pub mod Query
pub mod Acknowledged
use secure_claw.Base.{
  ℕ, suc, zero, ◌+◌, ◌-◌, ◌*◌, ◌%◌, String, Bool, true, false, not, ◌&&◌, ◌||◌, Option, none, some,
  List, [], ◌∷◌, ◌++◌, map, ◌==◌, if◌then◌else◌, leb, nat_eq, length, any, keep, sum_of, or_else,
  non_empty,
}
use secure_claw.Base.Json.{Json, JsonCodec, obj}
use secure_claw.Base.Slices.{take}
use secure_claw.Sanitizer.Service.{Outcome, returns, throws}
use secure_claw.Audit.{EventRow, AlertRow, CostRow, Db, AuditEnv, insert_event, insert_alert}
use secure_claw.Audit.Rules.{LoggedEvent, AlertContext, AlertFinding, AlertRule, alert_rules}

pub record LogEventParams : Type 0 where
  pub event_type : String
  pub session_id : Option String
  pub user_id : Option String
  pub payload : Json
  pub severity : String

pub record LogEventResult : Type 0 where
  pub event_id : ℕ
  pub success : Bool
  pub alerts_triggered : List AlertFinding

-- the event that the rules see
abbrev pub event_of : LogEventParams → ℕ → Db → LoggedEvent
event_of params now db = record {
  id = suc (length db.audit_events);
  event_type = params.event_type;
  session_id = params.session_id;
  user_id = params.user_id;
  payload = params.payload;
  severity = params.severity;
  created_at_unix_ms = now;
}

-- `column = ?`, which is not true of a NULL
abbrev pub column_is : String → Option String → Bool
column_is s none = false
column_is s (some t) = t == s

-- a value that is there and is not the empty text
abbrev pub truthy : Option String → Option String
truthy none = none
truthy (some s) = if s == "" then none else some s

abbrev pub day_ms : ℕ
day_ms = 86400000

-- the counted rows of `buildAlertContext`
abbrev pub is_tool_call : String → ℕ → EventRow → Bool
is_tool_call session_id since r =
    (r.event_type == "TOOL_CALL") && column_is session_id r.session_id && leb since r.created_at

abbrev pub is_auth_failure : ℕ → EventRow → Bool
is_auth_failure since r = (r.event_type == "AUTH_FAILED") && leb since r.created_at

abbrev pub recorded_since : ℕ → CostRow → Bool
recorded_since since r = leb since r.recorded_at

abbrev pub tool_calls_since : ℕ → List EventRow → Option String → ℕ
tool_calls_since since rows none = 0
tool_calls_since since rows (some id) = length (keep (is_tool_call id since) rows)

unfoldable pub build_alert_context : AuditEnv → ℕ → Option String → Db → AlertContext
build_alert_context env now session_id db = record {
  tool_calls_last_minute = tool_calls_since (now - 60000) db.audit_events (truthy session_id);
  auth_failures_last_five_min = length (keep (is_auth_failure (now - 300000)) db.audit_events);
  daily_cost_usd =
      sum_of (λ r. r.cost_usd) (keep (recorded_since (now - now % day_ms)) db.cost_ledger);
  cost_cap_usd = env.cost_cap_usd;
  largest_output_bytes_this_session = 0;
}

-- the row of a finding, inserted and added to the findings
abbrev pub after_alert :
    AlertFinding
    → List AlertFinding
    → List AlertRow
    → Outcome (List AlertRow)
    → List AlertRow × Outcome (List AlertFinding)
after_alert finding triggered rows (throws message) = (rows, throws message)
after_alert finding triggered rows (returns stored) = (stored, returns (triggered ++ finding ∷ []))

-- One rule of the loop, with the alerts in the table and the findings so far. After an exception
-- the loop does nothing more.
unfoldable pub on_finding :
    AuditEnv
    → Option String
    → ℕ
    → Option AlertFinding
    → List AlertRow × Outcome (List AlertFinding)
    → List AlertRow × Outcome (List AlertFinding)
on_finding env session_id now none state = state
on_finding env session_id now (some finding) (rows, throws message) = (rows, throws message)
on_finding env session_id now (some finding) (rows, returns triggered) =
    after_alert finding triggered rows (
      insert_alert finding.rule_id finding.severity session_id finding.message
        (env.codec.stringify (obj finding.context)) now rows)

-- the loop over the rules
unfoldable pub evaluate_rules :
    AuditEnv
    → LoggedEvent
    → AlertContext
    → ℕ
    → List AlertRule
    → List AlertRow × Outcome (List AlertFinding)
    → List AlertRow × Outcome (List AlertFinding)
evaluate_rules env event ctx now [] state = state
evaluate_rules env event ctx now (rule ∷ rules) state =
    evaluate_rules env event ctx now rules
      (on_finding env event.session_id now (rule.evaluate event ctx) state)

abbrev pub result_of : ℕ → Outcome (List AlertFinding) → Outcome LogEventResult
result_of event_id (throws message) = throws message
result_of event_id (returns triggered) =
    returns (record { event_id = event_id; success = true; alerts_triggered = triggered })

-- `logEvent` from the insertion of the event
unfoldable pub after_insert :
    AuditEnv → ℕ → ℕ → LogEventParams → Db → Outcome (List EventRow) → Db × Outcome LogEventResult
after_insert env now read_at params db (throws message) = (db, throws message)
after_insert env now read_at params db (returns rows) =
    let logged = record db { audit_events = rows } in
    let (stored, outcome) =
      evaluate_rules env (event_of params now db)
        (build_alert_context env read_at params.session_id logged) now (alert_rules env)
        (db.alerts, returns []) in
    (record logged { alerts = stored }, result_of (suc (length db.audit_events)) outcome)

unfoldable pub log_event : AuditEnv → ℕ → ℕ → LogEventParams → Db → Db × Outcome LogEventResult
log_event env now read_at params db = after_insert env now read_at params db (
    insert_event params.event_type params.session_id params.user_id
      (env.codec.stringify params.payload) params.severity now db.audit_events)

pub record QueryParams : Type 0 where
  pub session_id : Option String
  pub from_unix_ms : Option ℕ
  pub to_unix_ms : Option ℕ
  pub event_types : Option (List String)
  pub limit : Option ℕ

abbrev in_session : Option String → EventRow → Bool
in_session none r = true
in_session (some id) r = column_is id r.session_id

-- A bound of zero is no bound.
abbrev is_from : Option ℕ → EventRow → Bool
is_from none r = true
is_from (some zero) r = true
is_from (some (suc n)) r = leb (suc n) r.created_at

abbrev is_to : Option ℕ → EventRow → Bool
is_to none r = true
is_to (some zero) r = true
is_to (some (suc n)) r = leb r.created_at (suc n)

abbrev is_of_types : Option (List String) → EventRow → Bool
is_of_types none r = true
is_of_types (some []) r = true
is_of_types (some (t ∷ ts)) r = any (λ u. u == r.event_type) (t ∷ ts)

-- the WHERE clause of `queryEvents`
unfoldable pub matches : QueryParams → EventRow → Bool
matches params r =
    in_session (truthy params.session_id) r
    && is_from params.from_unix_ms r
    && is_to params.to_unix_ms r
    && is_of_types params.event_types r

-- the rows that the statement of `queryEvents` gives
unfoldable pub select_events :
    (List EventRow → List EventRow) → QueryParams → List EventRow → List EventRow
unfolding matches
select_events newest_first params rows =
    take (or_else params.limit 100) (newest_first (keep (matches params) rows))

abbrev pub as_event : EventRow → Json → LoggedEvent
as_event r payload = record {
  id = r.id;
  event_type = r.event_type;
  session_id = r.session_id;
  user_id = r.user_id;
  payload = payload;
  severity = r.severity;
  created_at_unix_ms = r.created_at;
}

-- an event of `rows.map`, whose `JSON.parse` can throw, before the others
abbrev pub parsed_row :
    EventRow → Option Json → Outcome (List LoggedEvent) → Outcome (List LoggedEvent)
parsed_row r none events = throws "SyntaxError"
parsed_row r (some payload) (throws message) = throws message
parsed_row r (some payload) (returns events) = returns (as_event r payload ∷ events)

unfoldable pub parse_rows : JsonCodec → List EventRow → Outcome (List LoggedEvent)
parse_rows codec [] = returns []
parse_rows codec (r ∷ rs) = parsed_row r (codec.parse r.payload) (parse_rows codec rs)

unfoldable pub query_events :
    AuditEnv → (List EventRow → List EventRow) → QueryParams → Db → Outcome (List LoggedEvent)
unfolding select_events parse_rows
query_events env newest_first params db =
    parse_rows env.codec (select_events newest_first params db.audit_events)

abbrev pub is_listed : Bool → Option String → AlertRow → Bool
is_listed include_acknowledged none r = include_acknowledged || not r.acknowledged
is_listed include_acknowledged (some id) r =
    (include_acknowledged || not r.acknowledged) && column_is id r.session_id

unfoldable pub get_alerts :
    (List AlertRow → List AlertRow) → Bool → Option String → Db → List AlertRow
get_alerts newest_first include_acknowledged session_id db =
    newest_first (keep (is_listed include_acknowledged (truthy session_id)) db.alerts)

-- the UPDATE
abbrev pub acknowledge : ℕ → AlertRow → AlertRow
acknowledge alert_id r = if nat_eq r.id alert_id then record r { acknowledged = true } else r

unfoldable pub acknowledge_alert : ℕ → Db → Db × Bool
acknowledge_alert alert_id db = (
  record db { alerts = map (acknowledge alert_id) db.alerts },
  any (λ r. nat_eq r.id alert_id) db.alerts,
)
