-- ===== src/Audit/Report/Laws.antt =====
-- When the compliance report has an issue.
use secure_claw.Base.{
  ℕ, zero, suc, ◌+◌, ◌≤◌, String, ◌≡◌, refl, ap, ◌∙◌, Bool, true, false, not, List, [], ◌∷◌, map,
  ◌==◌, if◌then◌else◌, arith, leb, length, keep, non_empty, if_cases,
}
use secure_claw.Audit.{Db, AuditEnv}
use secure_claw.Audit.Report.{
  ArticleResult, count_event, all_resolved, articles_of, get_compliance_report, is_issue,
  issue_text, status_of,
}

all_resolved-leb :
    (resolved requested : ℕ) → all_resolved resolved requested ≡ leb requested resolved
all_resolved-leb resolved zero = ground arith
all_resolved-leb resolved (suc n) = refl

abbrev overall : List ArticleResult → String
overall issues = if non_empty (map issue_text issues) then "WARNING" else "COMPLIANT"

kept_issue :
    (good : Bool) (a : ArticleResult)
    → a.status ≡ status_of good
    → (overall (keep is_issue (a ∷ [])) ≡ status_of good)
      × (length (map issue_text (keep is_issue (a ∷ []))) ≤ 1)
kept_issue true a h =
    let no_issue : is_issue a ≡ false = ap (λ s. not (s == "COMPLIANT")) h in
    if_cases (λ xs. (overall xs ≡ "COMPLIANT") × (length (map issue_text xs) ≤ 1)) (is_issue a)
      (λ e. absurd (ground arith)) (λ e. (refl, omega arith))
kept_issue false a h =
    let an_issue : is_issue a ≡ true = ap (λ s. not (s == "COMPLIANT")) h in
    if_cases (λ xs. (overall xs ≡ "WARNING") × (length (map issue_text xs) ≤ 1)) (is_issue a)
      (λ e. (refl, omega arith)) (λ e. absurd (ground arith))

-- The report warns exactly if fewer approvals were resolved in its time, by the user or by the
-- timeout, than were requested; nothing else makes an issue.
pub get_compliance_report-Warns :
    (env : AuditEnv) (from_ms to_ms : ℕ) (db : Db)
    → let count = count_event from_ms to_ms db in
      let report = get_compliance_report env from_ms to_ms db in
      (report.overall_status ≡ (
        if leb
          (count "APPROVAL_REQUESTED")
          (count "APPROVAL_GRANTED" + count "APPROVAL_DENIED" + count "APPROVAL_TIMEOUT")
        then "COMPLIANT"
        else "WARNING"))
      × (length report.articles ≡ 4)
      × (length report.issues ≤ 1)
unfolding get_compliance_report articles_of
get_compliance_report-Warns env from_ms to_ms db =
    let count = count_event from_ms to_ms db in
    let resolved = count "APPROVAL_GRANTED" + count "APPROVAL_DENIED" + count "APPROVAL_TIMEOUT" in
    let (status, few) = kept_issue (all_resolved resolved (count "APPROVAL_REQUESTED")) _ refl in
    (status ∙ ap status_of (all_resolved-leb resolved (count "APPROVAL_REQUESTED")), refl, few)
