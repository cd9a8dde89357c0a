-- ===== src/Audit/Quota/Laws.antt =====
-- When a team's quota is exceeded, and what moves it.
use secure_claw.Base.{
  ℕ, ◌+◌, ◌≤◌, String, ◌≡◌, refl, sym, ap, ◌∙◌, Bool, true, false, Option, none, some, List, [],
  ◌∷◌, ◌==◌, if◌then◌else◌, arith, leb, keep, eq_iff,
}
use secure_claw.Audit.{CostRow, QuotaRow, Db}
use secure_claw.Audit.Costs.{CostParams, cost_row, record_cost}
use secure_claw.Audit.Costs.Totals.{cost_of, keep-snoc_cost}
use secure_claw.Audit.Quota.{
  find_quota, in_period, get_team_spend_in_period, period_end, quota_of, get_team_quota,
  upsert_quota, set_team_quota, check_quota_exceeded, quota_result, check_of,
}

-- Whether a quota is exceeded, from its row: a team without one has none left.
abbrev pub over_quota : Option QuotaRow → String → List CostRow → Bool
over_quota none team_id ledger = true
over_quota (some q) team_id ledger =
    leb q.quota_usd
      (cost_of (keep (in_period team_id q.billing_period_start (period_end q)) ledger))

over_quota_of :
    (o : Option QuotaRow) (team_id : String) (now : ℕ) (db : Db)
    → (quota_of o team_id now db).at_capacity ≡ over_quota o team_id db.cost_ledger
unfolding quota_of get_team_spend_in_period
over_quota_of none team_id now db = refl
over_quota_of (some q) team_id now db = ground arith

-- A team's quota is exceeded exactly if it has none, or if the rows of the ledger that bear its name
-- and lie in the billing period of its quota add up to the quota or more; the time of the question
-- does not matter.
pub check_quota_exceeded-Over :
    (team_id : String) (now : ℕ) (db : Db)
    → (check_quota_exceeded team_id now db).exceeded
      ≡ over_quota (find_quota team_id db.team_quotas) team_id db.cost_ledger
unfolding check_quota_exceeded get_team_quota
check_quota_exceeded-Over team_id now db =
    over_quota_of (find_quota team_id db.team_quotas) team_id now db

-- the row of a team after its quota was set
abbrev pub new_quota : Option QuotaRow → String → ℕ → ℕ → QuotaRow
new_quota none team_id quota_usd now = record {
  team_id = team_id;
  quota_usd = quota_usd;
  billing_period_start = now;
  billing_period_days = 30;
  created_at = now;
  updated_at = now;
}
new_quota (some q) team_id quota_usd now = record q { quota_usd = quota_usd; updated_at = now }

find_quota-upsert :
    (team_id other : String) (quota_usd now : ℕ) (rows : List QuotaRow)
    → find_quota other (upsert_quota team_id quota_usd now rows) ≡ (
        if team_id == other
        then some (new_quota (find_quota team_id rows) team_id quota_usd now)
        else find_quota other rows)
unfolding find_quota upsert_quota
find_quota-upsert team_id other quota_usd now [] = ground (arith, eq_iff team_id other)
find_quota-upsert team_id other quota_usd now (q ∷ qs) = ground (
  arith,
  find_quota-upsert team_id other quota_usd now qs,
  eq_iff q.team_id team_id,
  eq_iff q.team_id other,
  eq_iff team_id other,
)

-- Recording a cost in the billing period of its team's quota adds it to what the team has spent of
-- that period.
pub spend-record_cost :
    (team_id : String) (from_ms to_ms now : ℕ) (params : CostParams) (db : Db)
    → get_team_spend_in_period team_id from_ms to_ms (record_cost params now db)
      ≡ get_team_spend_in_period team_id from_ms to_ms db
        + (if in_period team_id from_ms to_ms (cost_row params now db) then params.cost_usd else 0)
unfolding get_team_spend_in_period record_cost
spend-record_cost team_id from_ms to_ms now params db =
    keep-snoc_cost (in_period team_id from_ms to_ms) db.cost_ledger (cost_row params now db)

late_is_out :
    (team_id : String) (from_ms to_ms : ℕ) (r : CostRow)
    → to_ms ≤ r.recorded_at
    → in_period team_id from_ms to_ms r ≡ false
late_is_out team_id from_ms to_ms r late = ground arith

-- A cost that is recorded after the end of a team's billing period counts towards no quota: the
-- answer stays what it was, whatever is spent, since the period is never renewed.
pub no_quota_after_period :
    (team_id : String) (asked now : ℕ) (params : CostParams) (db : Db) (q : QuotaRow)
    → find_quota team_id db.team_quotas ≡ some q
    → period_end q ≤ now
    → check_quota_exceeded team_id asked (record_cost params now db)
      ≡ check_quota_exceeded team_id asked db
unfolding check_quota_exceeded get_team_quota record_cost quota_of
no_quota_after_period team_id asked now params db q found late =
    let row = cost_row params now db in
    let same =
      spend-record_cost team_id q.billing_period_start (period_end q) now params db
      ∙ (ap
            (λ b.
              get_team_spend_in_period team_id q.billing_period_start (period_end q) db
              + (if b then params.cost_usd else 0))
            (late_is_out team_id q.billing_period_start (period_end q) row late)
          ∙ omega arith) in
    ap (λ o. check_of (quota_of o team_id asked (record_cost params now db))) found
    ∙ (ap (λ spend. check_of (quota_result q asked spend)) same
        ∙ ap (λ o. check_of (quota_of o team_id asked db)) (sym found))

over_quota-if :
    (b : Bool) (x y : Option QuotaRow) (team_id : String) (ledger : List CostRow)
    → over_quota (if b then x else y) team_id ledger
      ≡ (if b then over_quota x team_id ledger else over_quota y team_id ledger)
over_quota-if true x y team_id ledger = refl
over_quota-if false x y team_id ledger = refl

-- Setting a team's quota decides the team's next check by the new quota, over the billing period
-- that it had, or over one of 30 days from now if it had none; the check of another team stays.
pub check_quota_exceeded-set_team_quota :
    (team_id other : String) (quota_usd now asked : ℕ) (db : Db)
    → (check_quota_exceeded other asked (set_team_quota team_id quota_usd now db)).exceeded ≡ (
        if team_id == other
        then over_quota
            (some (new_quota (find_quota team_id db.team_quotas) team_id quota_usd now))
            other
            db.cost_ledger
        else (check_quota_exceeded other asked db).exceeded)
unfolding set_team_quota
check_quota_exceeded-set_team_quota team_id other quota_usd now asked db =
    let nq = some (new_quota (find_quota team_id db.team_quotas) team_id quota_usd now) in
    check_quota_exceeded-Over other asked (set_team_quota team_id quota_usd now db)
    ∙ (ap (λ o. over_quota o other db.cost_ledger)
          (find_quota-upsert team_id other quota_usd now db.team_quotas)
        ∙ (over_quota-if (team_id == other) nq (find_quota other db.team_quotas) other
              db.cost_ledger
            ∙ ap (λ b. if team_id == other then over_quota nq other db.cost_ledger else b)
                (sym (check_quota_exceeded-Over other asked db))))
