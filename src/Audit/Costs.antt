-- ===== src/Audit/Costs.antt =====
-- packages/audit-system/src/audit.service.ts: the cost ledger and the daily cost of a user. A group
-- of SQL stands where its first row does.
pub mod Totals
use secure_claw.Base.{
  ℕ, suc, ◌+◌, ◌-◌, ◌%◌, String, Bool, ◌&&◌, Option, none, some, List, [], ◌∷◌, ◌++◌, ◌==◌,
  if◌then◌else◌, leb, ltb, length, keep, or_else,
}
use secure_claw.Base.Dict
use secure_claw.Base.Dict.{Dict}
use secure_claw.Base.Text.{includes}
use secure_claw.Agent.Entry.{team_of}
use secure_claw.Audit.{CostRow, Db, AuditEnv}
use secure_claw.Audit.Events.{day_ms}

pub record CostParams : Type 0 where
  pub session_id : String
  pub user_id : String
  pub provider : String
  pub model : String
  pub input_tokens : ℕ
  pub output_tokens : ℕ
  pub cost_usd : ℕ

-- `s.split("/")[0]` is there for every text
unfoldable pub ledger_team : String → String
unfolding includes team_of
ledger_team user_id = if includes user_id "/" then team_of user_id else user_id

-- the inserted row
abbrev pub cost_row : CostParams → ℕ → Db → CostRow
cost_row params now db = record {
  id = suc (length db.cost_ledger);
  session_id = params.session_id;
  user_id = params.user_id;
  team_id = ledger_team params.user_id;
  provider = params.provider;
  model = params.model;
  input_tokens = params.input_tokens;
  output_tokens = params.output_tokens;
  cost_usd = params.cost_usd;
  recorded_at = now;
}

unfoldable pub record_cost : CostParams → ℕ → Db → Db
unfolding ledger_team
record_cost params now db = record db {
  cost_ledger = db.cost_ledger ++ cost_row params now db ∷ [];
}

pub record CostSummaryResult : Type 0 where
  pub total_cost_usd : ℕ
  pub cap_usd : ℕ
  pub remaining_usd : ℕ
  pub cap_exceeded : Bool
  pub cost_by_model : Dict ℕ

-- `m[k] = (m[k] ?? 0) + n`
unfoldable pub add_to : Dict ℕ → String → ℕ → Dict ℕ
unfolding Dict.get Dict.set
add_to m k n = Dict.set m k (or_else (Dict.get m k) 0 + n)

-- SELECT model, SUM(cost_usd) ... GROUP BY model
unfoldable pub sum_by_model : List CostRow → Dict ℕ → Dict ℕ
unfolding add_to
sum_by_model [] groups = groups
sum_by_model (r ∷ rs) groups = sum_by_model rs (add_to groups r.model r.cost_usd)

-- the loop over the groups
unfoldable pub add_groups : List (String × ℕ) → Dict ℕ → ℕ → Dict ℕ × ℕ
unfolding Dict.set
add_groups [] by_model total_cost = (by_model, total_cost)
add_groups ((model, total) ∷ rows) by_model total_cost =
    add_groups rows (Dict.set by_model model total) (total_cost + total)

abbrev pub day_start : ℕ → ℕ
day_start day_unix_ms = day_unix_ms - day_unix_ms % day_ms

abbrev pub in_day : String → ℕ → CostRow → Bool
in_day user_id day_unix_ms r =
    (r.user_id == user_id)
    && leb (day_start day_unix_ms) r.recorded_at
    && ltb r.recorded_at (day_start day_unix_ms + day_ms)

unfoldable pub get_cost_summary : AuditEnv → String → ℕ → Db → CostSummaryResult
unfolding sum_by_model add_groups
get_cost_summary env user_id day_unix_ms db =
    let (cost_by_model, total_cost_usd) =
      add_groups (sum_by_model (keep (in_day user_id day_unix_ms) db.cost_ledger) []) [] 0 in
    record {
      total_cost_usd = total_cost_usd;
      cap_usd = env.cost_cap_usd;
      remaining_usd = env.cost_cap_usd - total_cost_usd;
      cap_exceeded = leb env.cost_cap_usd total_cost_usd;
      cost_by_model = cost_by_model;
    }
