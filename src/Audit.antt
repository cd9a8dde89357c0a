-- ===== src/Audit.antt =====
-- packages/audit-system/src: the tables of the audit database (database/schema.ts) and the types of
-- the service's calls (audit.service.ts). A table is the list of its rows in the order of their
-- ids; no statement deletes a row, so that the next id is one more than the number of rows. Costs
-- and quotas are whole numbers of a small unit. The backup and its restoration are left out.
pub mod Rules
pub mod Events
pub mod Costs
pub mod Teams
pub mod Quota
pub mod Report
pub mod Handlers
pub mod Runs
pub mod Client
use secure_claw.Base.{
  ℕ, suc, String, Bool, true, false, ◌||◌, Option, none, some, List, [], ◌∷◌, ◌++◌, ◌==◌,
  if◌then◌else◌, length,
}
use secure_claw.Base.Json.{Json, Fields, JsonCodec}
use secure_claw.Sanitizer.Service.{Outcome, returns, throws}

-- a row of `audit_events`; the payload is its JSON text
pub record EventRow : Type 0 where
  pub id : ℕ
  pub event_type : String
  pub session_id : Option String
  pub user_id : Option String
  pub payload : String
  pub severity : String
  pub created_at : ℕ

-- a row of `alerts`
pub record AlertRow : Type 0 where
  pub id : ℕ
  pub rule_id : String
  pub severity : String
  pub session_id : Option String
  pub message : String
  pub context : String
  pub created_at : ℕ
  pub acknowledged : Bool

-- a row of `cost_ledger`
pub record CostRow : Type 0 where
  pub id : ℕ
  pub session_id : String
  pub user_id : String
  pub team_id : String
  pub provider : String
  pub model : String
  pub input_tokens : ℕ
  pub output_tokens : ℕ
  pub cost_usd : ℕ
  pub recorded_at : ℕ

-- a row of `team_quotas`
pub record QuotaRow : Type 0 where
  pub team_id : String
  pub quota_usd : ℕ
  pub billing_period_start : ℕ
  pub billing_period_days : ℕ
  pub created_at : ℕ
  pub updated_at : ℕ

pub record Db : Type 0 where
  pub audit_events : List EventRow
  pub alerts : List AlertRow
  pub cost_ledger : List CostRow
  pub team_quotas : List QuotaRow

-- the database after `initSchema`
abbrev pub empty_db : Db
empty_db = record { audit_events = []; alerts = []; cost_ledger = []; team_quotas = [] }

-- the CHECK on the severity of an event
unfoldable pub is_event_severity : String → Bool
is_event_severity s = (s == "INFO") || (s == "WARN") || (s == "ERROR") || (s == "CRITICAL")

-- the CHECK on the severity of an alert
unfoldable pub is_alert_severity : String → Bool
is_alert_severity s = (s == "LOW") || (s == "MEDIUM") || (s == "HIGH") || (s == "CRITICAL")

-- the INSERT into `audit_events`, which its CHECK can refuse; `JSON.stringify` gives valid JSON
unfoldable pub insert_event :
    String
    → Option String
    → Option String
    → String
    → String
    → ℕ
    → List EventRow
    → Outcome (List EventRow)
unfolding is_event_severity
insert_event event_type session_id user_id payload severity now rows =
    if is_event_severity severity
    then returns (
        rows
        ++ record {
          id = suc (length rows);
          event_type = event_type;
          session_id = session_id;
          user_id = user_id;
          payload = payload;
          severity = severity;
          created_at = now;
        }
          ∷ [])
    else throws "CHECK constraint failed"

-- the INSERT into `alerts`, which its CHECK can refuse
unfoldable pub insert_alert :
    String → String → Option String → String → String → ℕ → List AlertRow → Outcome (List AlertRow)
unfolding is_alert_severity
insert_alert rule_id severity session_id message context now rows =
    if is_alert_severity severity
    then returns (
        rows
        ++ record {
          id = suc (length rows);
          rule_id = rule_id;
          severity = severity;
          session_id = session_id;
          message = message;
          context = context;
          created_at = now;
          acknowledged = false;
        }
          ∷ [])
    else throws "CHECK constraint failed"

-- The configured cap and the runtime: `show` and `to_fixed` print numbers, `percent` and `ratio`
-- the quotient of two.
pub record AuditEnv : Type 0 where
  pub cost_cap_usd : ℕ
  pub codec : JsonCodec
  pub show : ℕ → String
  pub to_fixed : ℕ → ℕ → String
  pub percent : ℕ → ℕ → String
  pub ratio : ℕ → ℕ → Json
