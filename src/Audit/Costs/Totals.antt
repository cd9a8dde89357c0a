-- ===== src/Audit/Costs/Totals.antt =====
-- The sums of the daily cost summary, for costs that are whole numbers of a unit.
use secure_claw.Base.{
  ℕ, ◌+◌, ◌-◌, String, ◌≡◌, refl, sym, ap, ◌∙◌, Bool, none, some, List, [], ◌∷◌, ◌++◌, ◌==◌,
  if◌then◌else◌, arith, leb, keep, sum_of, or_else, eq_iff,
}
use secure_claw.Base.Dict
use secure_claw.Base.Dict.{Dict, get-set, set-Distinct}
use secure_claw.Audit.{CostRow, Db, AuditEnv}
use secure_claw.Audit.Costs.{
  CostParams, cost_row, record_cost, add_to, sum_by_model, add_groups, in_day, get_cost_summary,
}

abbrev pub cost_of : List CostRow → ℕ
cost_of = sum_of (λ r. r.cost_usd)

abbrev pub sum_of_values : Dict ℕ → ℕ
sum_of_values = sum_of (λ e. e.1)

-- the value at a key, zero if there is none
abbrev pub value_at : Dict ℕ → String → ℕ
value_at m k = or_else (Dict.get m k) 0

abbrev pub of_model : String → CostRow → Bool
of_model model r = r.model == model

add_to-sum : (m : Dict ℕ) (k : String) (n : ℕ) → sum_of_values (add_to m k n) ≡ sum_of_values m + n
unfolding add_to Dict.get Dict.set
add_to-sum [] k n = omega arith
add_to-sum ((j, v) ∷ m) k n = ground (arith, add_to-sum m k n)

pub value_at-add_to :
    (m : Dict ℕ) (k j : String) (n : ℕ)
    → value_at (add_to m k n) j ≡ value_at m j + (if k == j then n else 0)
unfolding add_to
value_at-add_to m k j n = ground (arith, get-set m k j (or_else (Dict.get m k) 0 + n), eq_iff k j)

sum_by_model-sum :
    (rows : List CostRow) (groups : Dict ℕ)
    → sum_of_values (sum_by_model rows groups) ≡ sum_of_values groups + cost_of rows
unfolding sum_by_model
sum_by_model-sum [] groups = omega arith
sum_by_model-sum (r ∷ rs) groups = omega (
  arith,
  sum_by_model-sum rs (add_to groups r.model r.cost_usd),
  add_to-sum groups r.model r.cost_usd,
)

value_at-sum_by_model :
    (rows : List CostRow) (groups : Dict ℕ) (model : String)
    → value_at (sum_by_model rows groups) model
      ≡ value_at groups model + cost_of (keep (of_model model) rows)
unfolding sum_by_model
value_at-sum_by_model [] groups model = omega arith
value_at-sum_by_model (r ∷ rs) groups model = ground (
  arith,
  value_at-sum_by_model rs (add_to groups r.model r.cost_usd) model,
  value_at-add_to groups r.model model r.cost_usd,
)

sum_by_model-Distinct :
    (rows : List CostRow) (groups : Dict ℕ)
    → Dict.Distinct groups
    → Dict.Distinct (sum_by_model rows groups)
unfolding sum_by_model add_to
sum_by_model-Distinct [] groups d = d
sum_by_model-Distinct (r ∷ rs) groups d =
    sum_by_model-Distinct rs (add_to groups r.model r.cost_usd) (set-Distinct groups r.model _ d)

add_groups-total :
    (rows : List (String × ℕ)) (by_model : Dict ℕ) (total : ℕ)
    → (add_groups rows by_model total).1 ≡ total + sum_of_values rows
unfolding add_groups
add_groups-total [] by_model total = omega arith
add_groups-total ((k, v) ∷ rows) by_model total =
    omega (arith, add_groups-total rows (Dict.set by_model k v) (total + v))

-- The loop copies the groups.
get-add_groups :
    (rows : List (String × ℕ)) (by_model : Dict ℕ) (total : ℕ) (k : String)
    → Dict.Distinct rows
    → Dict.get (add_groups rows by_model total).0 k
      ≡ elim (Dict.get rows k) [ none ↦ Dict.get by_model k | some v ↦ some v ]
unfolding add_groups Dict.get
get-add_groups [] by_model total k d = refl
get-add_groups ((j, v) ∷ rows) by_model total k d = ground (
  arith,
  get-add_groups rows (Dict.set by_model j v) (total + v) k d.1,
  get-set by_model j k v,
  d.0,
  eq_iff j k,
)

copied_value :
    (rows : List (String × ℕ)) (k : String)
    → Dict.Distinct rows
    → value_at (add_groups rows [] 0).0 k ≡ value_at rows k
unfolding Dict.get
copied_value rows k d = ground (arith, get-add_groups rows [] 0 k d)

-- The summary of a user's day: the total is the sum of the user's rows of that day, each model's
-- cost is the sum of those of the model, the cap is exceeded exactly if the total reaches it, and
-- what remains is the cap less the total.
pub get_cost_summary-Totals :
    (env : AuditEnv) (user_id : String) (day_unix_ms : ℕ) (db : Db)
    → let summary = get_cost_summary env user_id day_unix_ms db in
      let rows = keep (in_day user_id day_unix_ms) db.cost_ledger in
      (summary.total_cost_usd ≡ cost_of rows)
      × ((model : String)
          → value_at summary.cost_by_model model ≡ cost_of (keep (of_model model) rows))
      × (summary.cap_exceeded ≡ leb env.cost_cap_usd (cost_of rows))
      × (summary.remaining_usd ≡ env.cost_cap_usd - cost_of rows)
unfolding get_cost_summary
get_cost_summary-Totals env user_id day_unix_ms db =
    let rows = keep (in_day user_id day_unix_ms) db.cost_ledger in
    let total : (add_groups (sum_by_model rows []) [] 0).1 ≡ cost_of rows =
      omega (arith, add_groups-total (sum_by_model rows []) [] 0, sum_by_model-sum rows []) in
    (
      total,
      (λ model.
          copied_value (sum_by_model rows []) model (sum_by_model-Distinct rows [] tt)
          ∙ value_at-sum_by_model rows [] model
          ∙ omega arith),
      ap (leb env.cost_cap_usd) total,
      ap (λ n. env.cost_cap_usd - n) total,
    )

pub keep-snoc_cost :
    (p : CostRow → Bool) (rows : List CostRow) (r : CostRow)
    → cost_of (keep p (rows ++ r ∷ [])) ≡ cost_of (keep p rows) + (if p r then r.cost_usd else 0)
keep-snoc_cost p [] r = ground arith
keep-snoc_cost p (s ∷ rs) r = ground (arith, keep-snoc_cost p rs r)

-- Recording a cost adds it to the total of its user on the day of the recording and leaves the
-- total of every other user and day.
pub get_cost_summary-record_cost :
    (env : AuditEnv) (params : CostParams) (now day_unix_ms : ℕ) (user_id : String) (db : Db)
    → (get_cost_summary env user_id day_unix_ms (record_cost params now db)).total_cost_usd
      ≡ (get_cost_summary env user_id day_unix_ms db).total_cost_usd
        + (if in_day user_id day_unix_ms (cost_row params now db) then params.cost_usd else 0)
unfolding record_cost
get_cost_summary-record_cost env params now day_unix_ms user_id db =
    let row = cost_row params now db in
    (get_cost_summary-Totals env user_id day_unix_ms (record_cost params now db)).0
    ∙ (keep-snoc_cost (in_day user_id day_unix_ms) db.cost_ledger row
        ∙ ap (λ n. n + (if in_day user_id day_unix_ms row then params.cost_usd else 0))
            (sym (get_cost_summary-Totals env user_id day_unix_ms db).0))
