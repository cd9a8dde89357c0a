-- ===== src/Audit/Events/Acknowledged.antt =====
-- What an acknowledgement does to the list of alerts.
use secure_claw.Base.{
  ℕ, String, ◌≡◌, refl, Bool, true, false, not, Option, none, some, List, [], ◌∷◌, map, arith,
  nat_eq, keep, any, Bool-cases, inl, inr,
}
use secure_claw.Audit.{AlertRow, Db}
use secure_claw.Audit.Events.{is_listed, truthy, acknowledge, acknowledge_alert, get_alerts}

abbrev pub has_id : ℕ → AlertRow → Bool
has_id alert_id r = nat_eq r.id alert_id

-- the rows without those of an id
abbrev pub without : ℕ → List AlertRow → List AlertRow
without alert_id = keep (λ r. not (has_id alert_id r))

hidden :
    (session_id : Option String) (r : AlertRow)
    → is_listed false session_id (record r { acknowledged = true }) ≡ false
hidden none r = refl
hidden (some id) r = refl

keep-acknowledge :
    (session_id : Option String) (alert_id : ℕ) (rows : List AlertRow)
    → keep (is_listed false session_id) (map (acknowledge alert_id) rows)
      ≡ without alert_id (keep (is_listed false session_id) rows)
keep-acknowledge session_id alert_id [] = refl
keep-acknowledge session_id alert_id (r ∷ rs) = elim (Bool-cases (nat_eq r.id alert_id)) [
  | inl same ↦
      rw same (ground (arith, hidden session_id r, keep-acknowledge session_id alert_id rs))
  | inr other ↦ rw other (ground (arith, keep-acknowledge session_id alert_id rs))
]

-- After an acknowledgement the open alerts are those before it without the one of the id, in the
-- order of the table, and the answer says whether there is an alert with the id.
pub acknowledge_alert_lem :
    (alert_id : ℕ) (session_id : Option String) (db : Db)
    → (get_alerts (λ rows. rows) false session_id (acknowledge_alert alert_id db).0
        ≡ without alert_id (get_alerts (λ rows. rows) false session_id db))
      × ((acknowledge_alert alert_id db).1 ≡ any (has_id alert_id) db.alerts)
unfolding acknowledge_alert get_alerts
acknowledge_alert_lem alert_id session_id db =
    (keep-acknowledge (truthy session_id) alert_id db.alerts, refl)
