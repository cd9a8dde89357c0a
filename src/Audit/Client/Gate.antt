-- ===== src/Audit/Client/Gate.antt =====
-- The gates of a run over the modelled audit service.
use secure_claw.Base.{ℕ, suc, String, ◌≡◌, refl, ◌∙◌, not, ◌&&◌, ◌||◌, leb, keep}
use secure_claw.Sanitizer.{is_critical}
use secure_claw.Sanitizer.Service.{SanitizerService}
use secure_claw.Session.Context.{SessionContext}
use secure_claw.Agent.Entry.{RunEnv, team_of}
use secure_claw.Agent.Run.{run}
use secure_claw.Agent.Run.Gate.{is_exceeded, quota_exceeded, not_rejected, scan_of, run_is_gated}
use secure_claw.Audit.{Db, AuditEnv}
use secure_claw.Audit.Costs.{in_day}
use secure_claw.Audit.Costs.Totals.{cost_of, get_cost_summary-Totals}
use secure_claw.Audit.Quota.{find_quota}
use secure_claw.Audit.Quota.Laws.{over_quota, check_quota_exceeded-Over}
use secure_claw.Audit.Handlers.{cost_summary_handler}
use secure_claw.Audit.Client.{ask_cost_summary, ask_quota, with_audit}

is_exceeded-ask_cost_summary :
    (env : AuditEnv) (before now : ℕ) (db : Db) (user_id : String)
    → is_exceeded (ask_cost_summary env (suc before) now db user_id)
      ≡ leb env.cost_cap_usd (cost_of (keep (in_day user_id (suc before)) db.cost_ledger))
unfolding ask_cost_summary cost_summary_handler
is_exceeded-ask_cost_summary env before now db user_id =
    (get_cost_summary-Totals env user_id (suc before) db).2

quota_exceeded-ask_quota :
    (now : ℕ) (db : Db) (team_id : String)
    → quota_exceeded (ask_quota now db team_id)
      ≡ over_quota (find_quota team_id db.team_quotas) team_id db.cost_ledger
unfolding ask_quota
quota_exceeded-ask_quota now db team_id = check_quota_exceeded-Over team_id now db

-- With the audit service of the model behind the agent, whose costs are whole numbers of a unit, a
-- run goes past the gates exactly if the
-- user's message is no critical injection, the costs of the user on this day are below the cap, and
-- the user's team has a quota that the costs of the team in its billing period do not reach. The
-- client's time is one after the epoch.
pub run_is_gated_by_ledger :
    (env : AuditEnv) (before now fuel : ℕ) (db : Db) (run_env : RunEnv) (ctx : SessionContext)
    (content : String) (s : SanitizerService)
    → not_rejected
        (with_audit env (suc before) now db run_env)
        (run (with_audit env (suc before) now db run_env) fuel ctx content s).1
      ≡ not (
          is_critical (scan_of run_env ctx content s).highest_severity
            && (scan_of run_env ctx content s).is_suspicious
          || (leb env.cost_cap_usd (cost_of (keep (in_day ctx.user_id (suc before)) db.cost_ledger))
              || over_quota
                  (find_quota (team_of ctx.user_id) db.team_quotas)
                  (team_of ctx.user_id)
                  db.cost_ledger))
run_is_gated_by_ledger env before now fuel db run_env ctx content s =
    run_is_gated (with_audit env (suc before) now db run_env) fuel ctx content s
    ∙ rw
        (
          is_exceeded-ask_cost_summary env before now db ctx.user_id,
          quota_exceeded-ask_quota now db (team_of ctx.user_id),
        )
        refl
