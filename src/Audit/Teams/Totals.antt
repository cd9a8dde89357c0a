-- ===== src/Audit/Teams/Totals.antt =====
-- The sums of the team cost summary.
use secure_claw.Base.{
  ℕ, ◌+◌, String, ◌≡◌, refl, ap, ◌∙◌, Option, none, some, List, [], ◌∷◌, arith, length, keep,
  sum_of, or_else,
}
use secure_claw.Base.Dict
use secure_claw.Base.Dict.{Dict}
use secure_claw.Audit.{CostRow, Db}
use secure_claw.Audit.Costs.Totals.{cost_of}
use secure_claw.Audit.Teams.{
  CostGroup, TeamCostEntry, in_window, add_to_groups, group_rows, group_key, new_entry, add_group,
  aggregate, sessions_of, with_count, count_sessions, get_team_cost_summary,
}

abbrev total_of : TeamCostEntry → ℕ
total_of t = t.total_cost_usd

abbrev group_total : List CostGroup → ℕ
group_total = sum_of (λ g. g.total_cost_usd)

abbrev entries_total : Dict TeamCostEntry → ℕ
entries_total = sum_of (λ e. total_of e.1)

-- what an entry that may be missing counts
abbrev total_in : Option TeamCostEntry → ℕ
total_in none = 0
total_in (some t) = total_of t

add_to_groups-total :
    (r : CostRow) (groups : List CostGroup)
    → group_total (add_to_groups r groups) ≡ group_total groups + r.cost_usd
unfolding add_to_groups
add_to_groups-total r [] = omega arith
add_to_groups-total r (g ∷ gs) = ground (arith, add_to_groups-total r gs)

group_rows-total :
    (rows : List CostRow) (groups : List CostGroup)
    → group_total (group_rows rows groups) ≡ group_total groups + cost_of rows
unfolding group_rows
group_rows-total [] groups = omega arith
group_rows-total (r ∷ rs) groups =
    omega (arith, group_rows-total rs (add_to_groups r groups), add_to_groups-total r groups)

set-total :
    (m : Dict TeamCostEntry) (k : String) (t : TeamCostEntry)
    → entries_total (Dict.set m k t) + total_in (Dict.get m k) ≡ entries_total m + total_of t
unfolding Dict.get Dict.set
set-total [] k t = omega arith
set-total ((j, u) ∷ m) k t = ground (arith, set-total m k t)

total-or_else :
    (o : Option TeamCostEntry) (k : String) → total_of (or_else o (new_entry k)) ≡ total_in o
total-or_else none k = refl
total-or_else (some t) k = refl

aggregate-total :
    (groups : List CostGroup) (teams : Dict TeamCostEntry)
    → entries_total (aggregate groups teams) ≡ entries_total teams + group_total groups
unfolding aggregate
aggregate-total [] teams = omega arith
aggregate-total (g ∷ gs) teams =
    let key = group_key g in
    let entry = or_else (Dict.get teams key) (new_entry key) in
    omega (
      arith,
      aggregate-total gs (Dict.set teams key (add_group g entry)),
      set-total teams key (add_group g entry),
      total-or_else (Dict.get teams key) key,
    )

with_count-total :
    (team_id : String) (n : ℕ) (o : Option TeamCostEntry) (teams : Dict TeamCostEntry)
    → Dict.get teams team_id ≡ o
    → entries_total (with_count team_id n o teams) ≡ entries_total teams
with_count-total team_id n none teams e = refl
with_count-total team_id n (some entry) teams e =
    omega (arith, set-total teams team_id (record entry { session_count = n }), ap total_in e)

count_sessions-total :
    (rows : List (String × List String)) (teams : Dict TeamCostEntry)
    → entries_total (count_sessions rows teams) ≡ entries_total teams
unfolding count_sessions
count_sessions-total [] teams = refl
count_sessions-total ((team_id, ids) ∷ rows) teams =
    count_sessions-total rows (with_count team_id (length ids) (Dict.get teams team_id) teams)
    ∙ with_count-total team_id (length ids) (Dict.get teams team_id) teams refl

values-total : (m : Dict TeamCostEntry) → sum_of total_of (Dict.values m) ≡ entries_total m
unfolding Dict.values
values-total [] = refl
values-total ((k, t) ∷ m) = ap (◌+◌ (total_of t)) (values-total m)

-- The grand total of the summary, which is the sum over the teams it lists, is the sum of the rows
-- of the ledger in the window, of the named team if one is named: the grouping loses nothing and
-- counts nothing twice.
pub get_team_cost_summary-Total :
    (team_id : Option String) (from_ms to_ms : ℕ) (db : Db)
    → (get_team_cost_summary team_id from_ms to_ms db).grand_total_usd
      ≡ cost_of (keep (in_window team_id from_ms to_ms) db.cost_ledger)
unfolding get_team_cost_summary
get_team_cost_summary-Total team_id from_ms to_ms db =
    let rows = keep (in_window team_id from_ms to_ms) db.cost_ledger in
    let teams = aggregate (group_rows rows []) [] in
    values-total (count_sessions (sessions_of rows []) teams)
    ∙ (count_sessions-total (sessions_of rows []) teams
        ∙ omega (arith, aggregate-total (group_rows rows []) [], group_rows-total rows []))
