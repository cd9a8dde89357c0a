-- ===== src/Audit/Quota.antt =====
-- packages/audit-system/src/audit.service.ts: the quotas of teams. A quota is not negative here.
pub mod Laws
use secure_claw.Base.{
  ℕ, ◌+◌, ◌-◌, ◌*◌, ◌/◌, String, Bool, true, false, ◌&&◌, Option, none, some, List, [], ◌∷◌, ◌==◌,
  if◌then◌else◌, leb, ltb, keep, sum_of,
}
use secure_claw.Audit.{CostRow, QuotaRow, Db}
use secure_claw.Audit.Events.{day_ms}

pub record TeamQuotaResult : Type 0 where
  pub quota_usd : ℕ
  pub current_spend_usd : ℕ
  pub remaining_usd : ℕ
  pub days_until_reset : ℕ
  pub at_capacity : Bool

-- SELECT ... FROM team_quotas WHERE team_id = ?
unfoldable pub find_quota : String → List QuotaRow → Option QuotaRow
find_quota team_id [] = none
find_quota team_id (q ∷ qs) =
    let rest = find_quota team_id qs in if q.team_id == team_id then some q else rest

abbrev pub is_of_team : String → CostRow → Bool
is_of_team team_id r = r.team_id == team_id

abbrev pub in_period : String → ℕ → ℕ → CostRow → Bool
in_period team_id from_ms to_ms r =
    (r.team_id == team_id) && leb from_ms r.recorded_at && ltb r.recorded_at to_ms

unfoldable pub get_team_spend : String → Db → ℕ
get_team_spend team_id db = sum_of (λ r. r.cost_usd) (keep (is_of_team team_id) db.cost_ledger)

unfoldable pub get_team_spend_in_period : String → ℕ → ℕ → Db → ℕ
get_team_spend_in_period team_id from_ms to_ms db =
    sum_of (λ r. r.cost_usd) (keep (in_period team_id from_ms to_ms) db.cost_ledger)

abbrev pub period_end : QuotaRow → ℕ
period_end q = q.billing_period_start + q.billing_period_days * day_ms

-- `Math.ceil(ms / day)`
abbrev pub days_of : ℕ → ℕ
days_of ms = (ms + 86399999) / day_ms

-- the result for a team with a quota, from what it has spent in the period
abbrev pub quota_result : QuotaRow → ℕ → ℕ → TeamQuotaResult
quota_result q now current_spend = record {
  quota_usd = q.quota_usd;
  current_spend_usd = current_spend;
  remaining_usd = q.quota_usd - current_spend;
  days_until_reset = days_of (period_end q - now);
  at_capacity = leb (q.quota_usd - current_spend) 0;
}

-- `getTeamQuota`, from the row of the team
unfoldable pub quota_of : Option QuotaRow → String → ℕ → Db → TeamQuotaResult
unfolding get_team_spend get_team_spend_in_period
quota_of none team_id now db = record {
  quota_usd = 0;
  current_spend_usd = get_team_spend team_id db;
  remaining_usd = 0;
  days_until_reset = 0;
  at_capacity = true;
}
quota_of (some q) team_id now db =
    quota_result q now (get_team_spend_in_period team_id q.billing_period_start (period_end q) db)

unfoldable pub get_team_quota : String → ℕ → Db → TeamQuotaResult
unfolding find_quota quota_of
get_team_quota team_id now db = quota_of (find_quota team_id db.team_quotas) team_id now db

-- INSERT ... ON CONFLICT(team_id) DO UPDATE
unfoldable pub upsert_quota : String → ℕ → ℕ → List QuotaRow → List QuotaRow
upsert_quota team_id quota_usd now [] =
    record {
      team_id = team_id;
      quota_usd = quota_usd;
      billing_period_start = now;
      billing_period_days = 30;
      created_at = now;
      updated_at = now;
    }
    ∷ []
upsert_quota team_id quota_usd now (q ∷ qs) =
    let rest = upsert_quota team_id quota_usd now qs in
    if q.team_id == team_id
    then record q { quota_usd = quota_usd; updated_at = now } ∷ qs
    else q ∷ rest

unfoldable pub set_team_quota : String → ℕ → ℕ → Db → Db
unfolding upsert_quota
set_team_quota team_id quota_usd now db = record db {
  team_quotas = upsert_quota team_id quota_usd now db.team_quotas;
}

pub record QuotaCheck : Type 0 where
  pub exceeded : Bool
  pub spent_usd : ℕ
  pub quota_usd : ℕ

abbrev pub check_of : TeamQuotaResult → QuotaCheck
check_of quota = record {
  exceeded = quota.at_capacity;
  spent_usd = quota.current_spend_usd;
  quota_usd = quota.quota_usd;
}

unfoldable pub check_quota_exceeded : String → ℕ → Db → QuotaCheck
unfolding get_team_quota
check_quota_exceeded team_id now db = check_of (get_team_quota team_id now db)
