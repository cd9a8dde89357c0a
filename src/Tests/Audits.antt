-- ===== src/Tests/Audits.antt =====
-- The audit service at concrete inputs.
use secure_claw.Base.{
  ℕ, String, ◌≡◌, refl, false, none, some, List, [], ◌∷◌, ◌==◌, if◌then◌else◌, arith, eq_iff, leb,
  keep, not, ◌&&◌, ◌||◌,
}
use secure_claw.Base.Json.{Json, JsonCodec, null, bool, num, str, arr, obj, end, field}
use secure_claw.Sanitizer.Service.{returns}
use secure_claw.Audit.{Db, AuditEnv, empty_db, EventRow, QuotaRow, is_event_severity, insert_event}
use secure_claw.Audit.Rules.{LoggedEvent}
use secure_claw.Audit.Events.{
  LogEventParams, log_event, QueryParams, query_events, matches, build_alert_context, after_insert,
}
use secure_claw.Audit.Events.Alerts.{is_returned, log_event-Returns}
use secure_claw.Audit.Events.Finds.{ReturnsWith, log_event-ReturnsWith}
use secure_claw.Audit.Events.Query.{Parses, Selects}
use secure_claw.Audit.Runs.Queries.{query_events-Selects}
use secure_claw.Audit.Costs.{CostParams, record_cost, in_day}
use secure_claw.Audit.Costs.Totals.{cost_of}
use secure_claw.Audit.Quota.{find_quota, set_team_quota, check_quota_exceeded}
use secure_claw.Audit.Quota.Laws.{over_quota, no_quota_after_period}
use secure_claw.Audit.Handlers.{log_params}
use secure_claw.Audit.Client.{with_audit, log_request}
use secure_claw.Audit.Client.Log.{sent, log_params-log_request}
use secure_claw.Audit.Client.Gate.{run_is_gated_by_ledger}
use secure_claw.Sanitizer.{is_critical}
use secure_claw.Agent.Entry.{team_of}
use secure_claw.Agent.Run.{run}
use secure_claw.Agent.Run.Gate.{not_rejected, scan_of}
use secure_claw.Tests.Fixtures.{run_env, ctx, service}
use secure_claw.Audit.Runs.{Step, After, IsValid, After-IsValid}
use secure_claw.Audit.Runs.Keeps.{Keeps, After-Keeps}
use secure_claw.Tests.Sorting.{sort_rows, sort_rows-SortsByTime}

abbrev print : Json → String
print (obj end) = "{}"
print (obj (field k v fs)) = "o"
print null = "null"
print (bool b) = "b"
print (num n) = "n"
print (str s) = "s"
print (arr items) = "a"

abbrev json : JsonCodec
json = record { stringify = print; parse = λ s. if s == "{}" then some (obj end) else none }

abbrev audit_env : AuditEnv
audit_env = record {
  cost_cap_usd = 5000;
  codec = json;
  show = λ n. "7";
  to_fixed = λ digits n. "7";
  percent = λ a b. "80";
  ratio = λ a b. num 1;
}

abbrev event : String → LogEventParams
event event_type = record {
  event_type = event_type;
  session_id = some "s1";
  user_id = some "acme/alice";
  payload = obj end;
  severity = "WARN";
}

abbrev spent : ℕ → CostParams
spent cost_usd = record {
  session_id = "s1";
  user_id = "acme/alice";
  provider = "anthropic";
  model = "opus";
  input_tokens = 10;
  output_tokens = 5;
  cost_usd = cost_usd;
}

abbrev logged : Db
logged = (log_event audit_env 1000 1000 (event "INJECTION_DETECTED") empty_db).0

abbrev costly : Db
costly = record_cost (spent 4000) 1000 logged

reached : After audit_env empty_db costly
reached =
    After.next (After.next After.here (Step.log (event "INJECTION_DETECTED") 1000 1000))
      (Step.spends (spent 4000) 1000)

After-IsValid_example : IsValid audit_env costly
After-IsValid_example = After-IsValid audit_env reached

After-Keeps_example : Keeps empty_db costly
After-Keeps_example = After-Keeps audit_env reached

-- The row is written, but a cost of 80% of the cap makes the call throw.
log_event-Returns_example :
    is_returned (log_event audit_env 2000 2000 (event "TOOL_CALL") costly).1 ≡ false
unfolding build_alert_context log_event record_cost is_event_severity after_insert insert_event
log_event-Returns_example = log_event-Returns audit_env 2000 2000 (event "TOOL_CALL") costly

log_event-ReturnsWith_example :
    ReturnsWith 2
      (record {
        rule_id = "INJECTION_DETECTED";
        message = "Prompt injection attempt detected and blocked";
        severity = "CRITICAL";
        context = field "payload" (obj end) end;
      }
        ∷ [])
      (log_event audit_env 2000 2000 (event "INJECTION_DETECTED") logged).1
unfolding build_alert_context log_event is_event_severity after_insert insert_event
log_event-ReturnsWith_example =
    log_event-ReturnsWith audit_env 2000 2000 (event "INJECTION_DETECTED") logged refl refl

log_params-log_request_example :
    log_params json (log_request json (event "TOOL_CALL")) ≡ sent (event "TOOL_CALL")
log_params-log_request_example = log_params-log_request json (event "TOOL_CALL") refl refl

abbrev query : QueryParams
query = record {
  session_id = some "s1";
  from_unix_ms = none;
  to_unix_ms = none;
  event_types = none;
  limit = some 5;
}

differs : (s : String) → (s == "{}") ≡ false → "{}" ≡ s → ⊥
differs s h e = ground (arith, eq_iff s "{}")

read_back : (v : Json) → "{}" ≡ print v → some (obj end) ≡ some v
read_back (obj end) e = refl
read_back (obj (field k v fs)) e = absurd (differs _ refl e)
read_back null e = absurd (differs _ refl e)
read_back (bool b) e = absurd (differs _ refl e)
read_back (num n) e = absurd (differs _ refl e)
read_back (str s) e = absurd (differs _ refl e)
read_back (arr items) e = absurd (differs _ refl e)

query_events-Selects_example :
    (events : List LoggedEvent) × (selected omitted : List EventRow) × (query_events audit_env
        sort_rows query costly
      ≡ returns events)
    × Parses json selected events
    × Selects 5 (matches query) costly.audit_events selected omitted
unfolding log_event record_cost after_insert insert_event
query_events-Selects_example =
    query_events-Selects audit_env sort_rows query costly ((λ v e. read_back v e), tt)
      sort_rows-SortsByTime reached

abbrev allotted : Db
allotted = set_team_quota "acme" 100 1000 logged

abbrev quota : QuotaRow
quota = record {
  team_id = "acme";
  quota_usd = 100;
  billing_period_start = 1000;
  billing_period_days = 30;
  created_at = 1000;
  updated_at = 1000;
}

no_quota_after_period_example :
    check_quota_exceeded "acme" 3000000000 (record_cost (spent 4000) 3000000000 allotted)
    ≡ check_quota_exceeded "acme" 3000000000 allotted
unfolding set_team_quota find_quota log_event after_insert insert_event
no_quota_after_period_example =
    no_quota_after_period "acme" 3000000000 3000000000 (spent 4000) allotted quota refl
      (omega arith)

run_is_gated_by_ledger_example :
    not_rejected
      (with_audit audit_env 2000 2000 costly run_env)
      (run (with_audit audit_env 2000 2000 costly run_env) 3 ctx "hello" service).1
    ≡ not (
        is_critical (scan_of run_env ctx "hello" service).highest_severity
          && (scan_of run_env ctx "hello" service).is_suspicious
        || (leb 5000 (cost_of (keep (in_day ctx.user_id 2000) costly.cost_ledger))
            || over_quota
                (find_quota (team_of ctx.user_id) costly.team_quotas)
                (team_of ctx.user_id)
                costly.cost_ledger))
run_is_gated_by_ledger_example =
    run_is_gated_by_ledger audit_env 1999 2000 3 costly run_env ctx "hello" service
