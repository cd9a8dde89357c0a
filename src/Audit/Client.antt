-- ===== src/Audit/Client.antt =====
-- packages/agent-runtime/src/grpc/clients/audit.client.ts over packages/audit-system/src/grpc/audit.impl.ts:
-- the audit service as the agent loop sees it. The transport, which can fail, is left out: these
-- are the answers of a call that arrives.
pub mod Gate
pub mod Log
use secure_claw.Base.{ℕ, String, Bool, Option, none, some, or_else}
use secure_claw.Base.Json.{JsonCodec}
use secure_claw.Sanitizer.Service.{Outcome, returns}
use secure_claw.Agent.Entry.{CostSummary, QuotaStatus, RunEnv}
use secure_claw.Audit.{Db, AuditEnv}
use secure_claw.Audit.Events.{LogEventParams}
use secure_claw.Audit.Costs.{CostSummaryResult, get_cost_summary}
use secure_claw.Audit.Quota.{QuotaCheck, check_quota_exceeded}
use secure_claw.Audit.Handlers.{LogEventRequest, cost_summary_handler}

-- the request of `logEvent`
unfoldable pub log_request : JsonCodec → LogEventParams → LogEventRequest
log_request codec params = record {
  event_type = params.event_type;
  session_id = or_else params.session_id "";
  user_id = or_else params.user_id "";
  payload_json = codec.stringify params.payload;
  severity = params.severity;
}

-- `getCostSummary` without a day: the client sends its own time, and the handler has another one
unfoldable pub ask_cost_summary : AuditEnv → ℕ → ℕ → Db → String → Outcome CostSummary
unfolding cost_summary_handler
ask_cost_summary env client_now now db user_id =
    let summary = cost_summary_handler env user_id client_now now db in
    returns (record {
      cap_exceeded = summary.cap_exceeded;
      total_cost_usd = summary.total_cost_usd;
      cap_usd = summary.cap_usd;
    })

unfoldable pub ask_quota : ℕ → Db → String → Outcome QuotaStatus
unfolding check_quota_exceeded
ask_quota now db team_id =
    let check = check_quota_exceeded team_id now db in
    returns (record {
      exceeded = check.exceeded;
      spent_usd = check.spent_usd;
      quota_usd = check.quota_usd;
    })

-- a run whose audit service is the modelled one, at a time after the epoch
abbrev pub with_audit : AuditEnv → ℕ → ℕ → Db → RunEnv → RunEnv
with_audit env client_now now db run_env = record run_env {
  get_cost_summary = ask_cost_summary env client_now now db;
  check_quota_exceeded = ask_quota now db;
}
