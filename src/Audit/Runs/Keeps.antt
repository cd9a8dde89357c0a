-- ===== src/Audit/Runs/Keeps.antt =====
-- That the tables only grow, but for the mark of an alert that was acknowledged.
use secure_claw.Base.{
  ℕ, ◌≡◌, refl, sym, ap, ◌∙◌, true, List, [], ◌∷◌, ◌++◌, map, nat_eq, append-nil, Bool-cases, inl,
  inr, if_cases,
}
use mathlib.Core.Path.{subst}
use mathlib.Core.List.{append_assoc, map-append}
use secure_claw.Audit.{AlertRow, Db, AuditEnv, is_event_severity}
use secure_claw.Audit.Events.{LogEventParams, log_event, acknowledge, acknowledge_alert}
use secure_claw.Audit.Events.Alerts.{row_of}
use secure_claw.Audit.Events.Stored.{log_event-Stores, log_event-Rejects}
use secure_claw.Audit.Costs.{cost_row, record_cost}
use secure_claw.Audit.Quota.{set_team_quota}
use secure_claw.Audit.Runs.{Step, After}

-- an alert without whether it is acknowledged
abbrev pub content : AlertRow → AlertRow
content r = record r { acknowledged = true }

abbrev pub Prefix {ℓ} : {A : Type ℓ} → List A → List A → Type ℓ
Prefix xs ys = (more : _) × (ys ≡ xs ++ more)

-- Nothing of the first database is gone from the second one.
abbrev pub Keeps : Db → Db → Type 0
Keeps db after =
    Prefix db.audit_events after.audit_events
    × Prefix db.cost_ledger after.cost_ledger
    × Prefix (map content db.alerts) (map content after.alerts)

module _ {ℓ} {A : Type ℓ} where
  Prefix-refl : (xs : List A) → Prefix xs xs
  Prefix-refl xs = ([], sym (append-nil xs))

  Prefix-trans : (xs ys zs : List A) → Prefix xs ys → Prefix ys zs → Prefix xs zs
  Prefix-trans xs ys zs (more, e) (rest, f) =
      (more ++ rest, f ∙ (ap (λ l. l ++ rest) e ∙ append_assoc xs more rest))

Keeps-refl : (db : Db) → Keeps db db
Keeps-refl db = (Prefix-refl _, Prefix-refl _, Prefix-refl _)

Keeps-trans : (a b c : Db) → Keeps a b → Keeps b c → Keeps a c
Keeps-trans a b c (e, l, n) (e', l', n') =
    (Prefix-trans _ _ _ e e', Prefix-trans _ _ _ l l', Prefix-trans _ _ _ n n')

content_of_acknowledged :
    (alert_id : ℕ) (rows : List AlertRow)
    → map content (map (acknowledge alert_id) rows) ≡ map content rows
content_of_acknowledged alert_id [] = refl
content_of_acknowledged alert_id (r ∷ rs) =
    ap (λ r. r ∷ map content (map (acknowledge alert_id) rs))
      (if_cases {A = AlertRow} (λ s. content s ≡ content r) (nat_eq r.id alert_id) (λ e. refl)
        (λ e. refl))
    ∙ ap (◌∷◌ (content r)) (content_of_acknowledged alert_id rs)

module _ (env : AuditEnv) where
  log_event-Keeps :
      (params : LogEventParams) (now read_at : ℕ) (db : Db)
      → Keeps db (log_event env now read_at params db).0
  log_event-Keeps params now read_at db = elim (Bool-cases (is_event_severity params.severity)) [
    | inl taken ↦
        let (events, ledger, quotas, new, alerts, news, found) =
          log_event-Stores env now read_at params db taken in
        (
          (row_of env params now db ∷ [], events),
          ([], ledger ∙ sym (append-nil _)),
          (map content new, ap (map content) alerts ∙ map-append content db.alerts new),
        )
    | inr refused ↦
        subst (λ o. Keeps db o.0) (sym (log_event-Rejects env now read_at params db refused))
          (Keeps-refl db)
  ]

  Step-Keeps : {db after : Db} → Step env db after → Keeps db after
  unfolding acknowledge_alert record_cost set_team_quota
  Step-Keeps {db} (Step.log params now read_at) = log_event-Keeps params now read_at db
  Step-Keeps {db} (Step.acknowledges alert_id) = (
    Prefix-refl _,
    Prefix-refl _,
    ([], content_of_acknowledged alert_id db.alerts ∙ sym (append-nil _)),
  )
  Step-Keeps {db} (Step.spends params now) =
      (Prefix-refl _, (cost_row params now db ∷ [], refl), Prefix-refl _)
  Step-Keeps {db} (Step.allots team_id quota_usd now) = Keeps-refl db

  -- Whatever calls of the service follow, the event log and the cost ledger keep their rows as they
  -- are and in their order, and an alert keeps its place and everything but the mark that it is
  -- acknowledged.
  pub After-Keeps : {db after : Db} → After env db after → Keeps db after
  After-Keeps {db} After.here = Keeps-refl db
  After-Keeps {db} {after} (After.next {mid} r step) =
      Keeps-trans db mid after (After-Keeps r) (Step-Keeps step)
