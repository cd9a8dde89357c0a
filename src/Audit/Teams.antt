-- ===== src/Audit/Teams.antt =====
-- packages/audit-system/src/audit.service.ts: `getTeamCostSummary`. A group of SQL stands where its
-- first row does.
pub mod Totals
use secure_claw.Base.{
  ℕ, ◌+◌, String, Bool, true, ◌&&◌, Option, none, some, List, [], ◌∷◌, ◌++◌, ◌==◌, if◌then◌else◌,
  leb, length, keep, any, sum_of, or_else,
}
use secure_claw.Base.Dict
use secure_claw.Base.Dict.{Dict}
use secure_claw.Audit.{CostRow, Db}
use secure_claw.Audit.Costs.{add_to}

-- a row of the first statement
pub record CostGroup : Type 0 where
  pub team_id : String
  pub user_id : String
  pub model : String
  pub total_cost_usd : ℕ
  pub input_tokens : ℕ
  pub output_tokens : ℕ

pub record TeamCostEntry : Type 0 where
  pub team_id : String
  pub total_cost_usd : ℕ
  pub input_tokens : ℕ
  pub output_tokens : ℕ
  pub session_count : ℕ
  pub cost_by_model : Dict ℕ

pub record TeamCostSummaryResult : Type 0 where
  pub teams : List TeamCostEntry
  pub grand_total_usd : ℕ

abbrev is_team : Option String → CostRow → Bool
is_team none r = true
is_team (some team_id) r = if team_id == "" then true else r.team_id == team_id

-- the WHERE clause of both statements
unfoldable pub in_window : Option String → ℕ → ℕ → CostRow → Bool
in_window team_id from_ms to_ms r =
    is_team team_id r && leb from_ms r.recorded_at && leb r.recorded_at to_ms

abbrev pub same_group : CostRow → CostGroup → Bool
same_group r g = (g.team_id == r.team_id) && (g.user_id == r.user_id) && (g.model == r.model)

abbrev pub add_row : CostRow → CostGroup → CostGroup
add_row r g = record g {
  total_cost_usd = g.total_cost_usd + r.cost_usd;
  input_tokens = g.input_tokens + r.input_tokens;
  output_tokens = g.output_tokens + r.output_tokens;
}

-- a row in the groups of the rows before it
unfoldable pub add_to_groups : CostRow → List CostGroup → List CostGroup
add_to_groups r [] =
    record {
      team_id = r.team_id;
      user_id = r.user_id;
      model = r.model;
      total_cost_usd = r.cost_usd;
      input_tokens = r.input_tokens;
      output_tokens = r.output_tokens;
    }
    ∷ []
add_to_groups r (g ∷ gs) =
    let rest = add_to_groups r gs in if same_group r g then add_row r g ∷ gs else g ∷ rest

-- GROUP BY team_id, user_id, model
unfoldable pub group_rows : List CostRow → List CostGroup → List CostGroup
unfolding add_to_groups
group_rows [] groups = groups
group_rows (r ∷ rs) groups = group_rows rs (add_to_groups r groups)

-- `row.team_id || row.user_id`
abbrev pub group_key : CostGroup → String
group_key g = if g.team_id == "" then g.user_id else g.team_id

abbrev pub new_entry : String → TeamCostEntry
new_entry key = record {
  team_id = key;
  total_cost_usd = 0;
  input_tokens = 0;
  output_tokens = 0;
  session_count = 0;
  cost_by_model = [];
}

abbrev pub add_group : CostGroup → TeamCostEntry → TeamCostEntry
add_group g entry = record entry {
  total_cost_usd = entry.total_cost_usd + g.total_cost_usd;
  input_tokens = entry.input_tokens + g.input_tokens;
  output_tokens = entry.output_tokens + g.output_tokens;
  cost_by_model = add_to entry.cost_by_model g.model g.total_cost_usd;
}

-- the loop that aggregates by team
unfoldable pub aggregate : List CostGroup → Dict TeamCostEntry → Dict TeamCostEntry
unfolding Dict.get Dict.set add_to
aggregate [] teams = teams
aggregate (g ∷ gs) teams = aggregate gs (
    Dict.set teams (group_key g)
      (add_group g (or_else (Dict.get teams (group_key g)) (new_entry (group_key g)))))

-- COUNT(DISTINCT session_id) of the rows of one team
abbrev pub add_once : String → List String → List String
add_once s ids = if any (λ t. t == s) ids then ids else ids ++ s ∷ []

abbrev pub sessions_of : List CostRow → Dict (List String) → Dict (List String)
sessions_of [] teams = teams
sessions_of (r ∷ rs) teams =
    sessions_of rs
      (Dict.set teams r.team_id (add_once r.session_id (or_else (Dict.get teams r.team_id) [])))

-- a count in the entry of its team, if there is one
abbrev pub with_count : String → ℕ → Option TeamCostEntry → Dict TeamCostEntry → Dict TeamCostEntry
with_count team_id n none teams = teams
with_count team_id n (some entry) teams =
    Dict.set teams team_id (record entry { session_count = n })

-- the loop that puts in the counts
unfoldable pub count_sessions :
    List (String × List String) → Dict TeamCostEntry → Dict TeamCostEntry
unfolding Dict.get Dict.set
count_sessions [] teams = teams
count_sessions ((team_id, ids) ∷ rows) teams =
    count_sessions rows (with_count team_id (length ids) (Dict.get teams team_id) teams)

unfoldable pub get_team_cost_summary : Option String → ℕ → ℕ → Db → TeamCostSummaryResult
unfolding in_window group_rows aggregate count_sessions Dict.values Dict.get Dict.set
get_team_cost_summary team_id from_ms to_ms db =
    let rows = keep (in_window team_id from_ms to_ms) db.cost_ledger in
    let teams =
      Dict.values (count_sessions (sessions_of rows []) (aggregate (group_rows rows []) [])) in
    record { teams = teams; grand_total_usd = sum_of (λ t. t.total_cost_usd) teams }
