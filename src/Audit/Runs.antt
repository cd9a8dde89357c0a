-- ===== src/Audit/Runs.antt =====
-- What can happen to the audit database over time: calls of the service, in any order.
pub mod Keeps
pub mod Queries
use secure_claw.Base.{
  ℕ, suc, ◌+◌, String, ◌≡◌, refl, sym, ap, ◌∙◌, Bool, true, false, Option, none, some, List, [],
  ◌∷◌, ◌++◌, map, ◌==◌, if◌then◌else◌, arith, nat_eq, length, length-append, All, All-append,
  All-snoc, All-imp, Bool-cases, inl, inr, if_cases,
}
use mathlib.Core.Path.{subst}
use mathlib.Core.List.{append_assoc, map-append}
use secure_claw.Base.Json.{Json}
use secure_claw.Sanitizer.Service.{Outcome, returns, throws}
use secure_claw.Agent.Entry.{team_of}
use secure_claw.Audit.{
  EventRow, AlertRow, CostRow, QuotaRow, Db, AuditEnv, empty_db, is_event_severity,
}
use secure_claw.Audit.Events.{LogEventParams, log_event, acknowledge, acknowledge_alert}
use secure_claw.Audit.Events.Alerts.{row_of}
use secure_claw.Audit.Events.Stored.{IsNew, Stores, log_event-Stores, log_event-Rejects}
use secure_claw.Audit.Events.Query.{HasJson}
use secure_claw.Audit.Costs.{CostParams, cost_row, record_cost}
use secure_claw.Audit.Quota.{set_team_quota}

pub data Step (env : AuditEnv) (db : Db) : Db → Type 0 where
  log :
      (params : LogEventParams) (now read_at : ℕ)
      → Step env db (log_event env now read_at params db).0
  acknowledges : (alert_id : ℕ) → Step env db (acknowledge_alert alert_id db).0
  spends : (params : CostParams) (now : ℕ) → Step env db (record_cost params now db)
  allots :
      (team_id : String) (quota_usd now : ℕ) → Step env db (set_team_quota team_id quota_usd now db)

-- the databases that follow one another
pub data After (env : AuditEnv) (db : Db) : Db → Type 0 where
  here : After env db db
  next : {mid after : Db} → After env db mid → Step env mid after → After env db after

module _ {ℓ} {A : Type ℓ} (id : A → ℕ) where
  -- The rows have the ids from a number on.
  abbrev pub NumberedFrom : ℕ → List A → Type 0
  NumberedFrom n [] = Unit
  NumberedFrom n (r ∷ rs) = (id r ≡ n) × NumberedFrom (suc n) rs

  NumberedFrom-snoc :
      (n : ℕ) (rows : List A) (r : A)
      → NumberedFrom n rows
      → id r ≡ n + length rows
      → NumberedFrom n (rows ++ r ∷ [])
  NumberedFrom-snoc n [] r h e = (omega (arith, e), tt)
  NumberedFrom-snoc n (s ∷ rs) r h e = (h.0, NumberedFrom-snoc (suc n) rs r h.1 (omega (arith, e)))

-- The rows of the log have the ids 1, 2, ..., a severity that the table takes and the text of a JSON
-- value; every alert is critical.
abbrev pub IsValid : AuditEnv → Db → Type 0
IsValid env db =
    NumberedFrom (λ r. r.id) 1 db.audit_events
    × All (λ r. is_event_severity r.severity ≡ true) db.audit_events
    × All (HasJson env.codec) db.audit_events
    × All (λ r. r.severity ≡ "CRITICAL") db.alerts
    × NumberedFrom (λ r. r.id) 1 db.cost_ledger

module _ (env : AuditEnv) where
  logged-IsValid :
      (params : LogEventParams) (now read_at : ℕ) (db : Db)
      → is_event_severity params.severity ≡ true
      → IsValid env db
      → IsValid env (log_event env now read_at params db).0
  logged-IsValid params now read_at db taken (ids, severities, payloads, critical, costs) =
      let (events, ledger, quotas, new, alerts, news, found) =
        log_event-Stores env now read_at params db taken in
      let row = row_of env params now db in
      (
        subst (NumberedFrom (λ r. r.id) 1) (sym events)
            (NumberedFrom-snoc (λ r. r.id) 1 db.audit_events row ids (omega arith)),
        subst (All (λ r. is_event_severity r.severity ≡ true)) (sym events)
            (All-snoc _ db.audit_events {x = row} severities taken),
        subst (All (HasJson env.codec)) (sym events) (
            All-snoc (HasJson env.codec) db.audit_events {x = row} payloads (params.payload, refl)),
        subst (All (λ r. r.severity ≡ "CRITICAL")) (sym alerts)
            (All-append _ db.alerts new critical (All-imp new (λ r n. n.0) news)),
        subst (NumberedFrom (λ r. r.id) 1) (sym ledger) costs,
      )

  log_event-IsValid :
      (params : LogEventParams) (now read_at : ℕ) (db : Db)
      → IsValid env db
      → IsValid env (log_event env now read_at params db).0
  log_event-IsValid params now read_at db v =
      elim (Bool-cases (is_event_severity params.severity)) [
        | inl taken ↦ logged-IsValid params now read_at db taken v
        | inr refused ↦
            subst (λ o. IsValid env o.0) (sym (log_event-Rejects env now read_at params db refused))
              v
      ]

  acknowledged_stay_critical :
      (alert_id : ℕ) (rows : List AlertRow)
      → All (λ r. r.severity ≡ "CRITICAL") rows
      → All (λ r. r.severity ≡ "CRITICAL") (map (acknowledge alert_id) rows)
  acknowledged_stay_critical alert_id [] h = tt
  acknowledged_stay_critical alert_id (r ∷ rs) h = (
    if_cases {A = AlertRow} (λ r. r.severity ≡ "CRITICAL") (nat_eq r.id alert_id) (λ e. h.0)
        (λ e. h.0),
    acknowledged_stay_critical alert_id rs h.1,
  )

  Step-IsValid : {db after : Db} → Step env db after → IsValid env db → IsValid env after
  unfolding acknowledge_alert record_cost set_team_quota
  Step-IsValid {db} (log params now read_at) v = log_event-IsValid params now read_at db v
  Step-IsValid {db} (acknowledges alert_id) (ids, severities, payloads, critical, costs) =
      (ids, severities, payloads, acknowledged_stay_critical alert_id db.alerts critical, costs)
  Step-IsValid {db} (spends params now) (ids, severities, payloads, critical, costs) = (
    ids,
    severities,
    payloads,
    critical,
    NumberedFrom-snoc (λ r. r.id) 1 db.cost_ledger (cost_row params now db) costs (omega arith),
  )
  Step-IsValid (allots team_id quota_usd now) v = v

  -- In every database that calls of the service lead to from an empty one, the rows of the event log
  -- and of the cost ledger are numbered 1, 2, ..., every event has a severity that the table takes
  -- and the text of a JSON value as its payload, and every alert has the severity CRITICAL.
  pub After-IsValid : {db : Db} → After env empty_db db → IsValid env db
  After-IsValid here = (tt, tt, tt, tt, tt)
  After-IsValid (next r step) = Step-IsValid step (After-IsValid r)
