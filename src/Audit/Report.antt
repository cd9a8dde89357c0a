-- ===== src/Audit/Report.antt =====
-- packages/audit-system/src/audit.service.ts: `getComplianceReport`.
pub mod Laws
use secure_claw.Base.{
  ℕ, zero, suc, ◌+◌, ◌*◌, ◌/◌, String, ◌<>◌, Bool, not, true, ◌&&◌, Option, List, [], ◌∷◌, map,
  ◌==◌, if◌then◌else◌, leb, nat_eq, length, keep, non_empty,
}
use secure_claw.Base.Json.{Json, bool, num, str, arr, nil, cons, Fields, end, field}
use secure_claw.Audit.{EventRow, Db, AuditEnv}

pub record ArticleResult : Type 0 where
  pub article_id : String
  pub status : String
  pub summary : String
  pub evidence : Fields

pub record ComplianceReportResult : Type 0 where
  pub articles : List ArticleResult
  pub issues : List String
  pub overall_status : String

abbrev pub in_range : ℕ → ℕ → EventRow → Bool
in_range from_ms to_ms r = leb from_ms r.created_at && leb r.created_at to_ms

-- SELECT COUNT(*) ... WHERE event_type=?
unfoldable pub count_event : ℕ → ℕ → Db → String → ℕ
count_event from_ms to_ms db event_type =
    length (keep (λ r. (r.event_type == event_type) && in_range from_ms to_ms r) db.audit_events)

-- `Math.round(oversightRate * 100)`, the rate being one if nothing was requested
abbrev percent_resolved : ℕ → ℕ → ℕ
percent_resolved resolved zero = 100
percent_resolved resolved (suc n) = (200 * resolved + suc n) / (2 * suc n)

-- whether `oversightRate` is one or more
abbrev pub all_resolved : ℕ → ℕ → Bool
all_resolved resolved zero = true
all_resolved resolved (suc n) = leb (suc n) resolved

abbrev rate_json : AuditEnv → ℕ → ℕ → Json
rate_json env resolved zero = num 1
rate_json env resolved (suc n) = env.ratio resolved (suc n)

abbrev pub status_of : Bool → String
status_of good = if good then "COMPLIANT" else "WARNING"

-- The articles, whose fields and texts are those of the source.
unfoldable pub articles_of : AuditEnv → (String → ℕ) → ℕ → List ArticleResult
articles_of env count total_events =
    let requested = count "APPROVAL_REQUESTED" in
    let resolved = count "APPROVAL_GRANTED" + count "APPROVAL_DENIED" + count "APPROVAL_TIMEOUT" in
    record {
      article_id = "article_9_risk_management";
      status = "COMPLIANT";
      summary = "Deny-by-default policy engine active; injection detection enabled";
      evidence = field "policyDenied" (num (count "POLICY_DENIED")) (
          field "injectionDetected" (num (count "INJECTION_DETECTED")) (
            field "sandboxErrors" (num (count "SANDBOX_ERROR")) (
              field "policy" (str "deny_all_except_allowlist")
                (field "injection_detection" (str "both") end))));
    }
    ∷ record {
      article_id = "article_12_transparency_logging";
      status = "COMPLIANT";
      summary =
          env.show total_events <> " immutable audit events; tamper-resistant SQLite triggers";
      evidence =
          field "totalEvents" (num total_events)
            (field "tamper_resistant" (bool true) (field "format" (str "append-only SQLite") end));
    }
    ∷ record {
      article_id = "article_14_human_oversight";
      status = status_of (all_resolved resolved requested);
      summary =
          env.show requested
          <> (" approvals requested; "
              <> (env.show (percent_resolved resolved requested) <> "% resolved"));
      evidence = field "approvalRequested" (num requested) (
          field "approvalGranted" (num (count "APPROVAL_GRANTED")) (
            field "approvalDenied" (num (count "APPROVAL_DENIED")) (
              field "approvalTimeout" (num (count "APPROVAL_TIMEOUT"))
                (field "oversightRate" (rate_json env resolved requested) end))));
    }
    ∷ record {
      article_id = "article_15_cybersecurity";
      status = "COMPLIANT";
      summary = "gVisor sandbox + session delimiters + multi-layer injection defense";
      evidence = field "sandbox_mode" (str "gVisor") (
          field "session_delimiter_protection" (bool true) (
            field "injection_layers"
              (arr (
                cons (str "heuristic")
                  (cons (str "llm_classifier") (cons (str "session_delimiter") nil))))
              end));
    }
    ∷ []

abbrev pub is_issue : ArticleResult → Bool
is_issue a = not (a.status == "COMPLIANT")

abbrev pub issue_text : ArticleResult → String
issue_text a = a.article_id <> (": " <> a.summary)

unfoldable pub get_compliance_report : AuditEnv → ℕ → ℕ → Db → ComplianceReportResult
unfolding count_event articles_of
get_compliance_report env from_ms to_ms db =
    let articles =
      articles_of env (count_event from_ms to_ms db)
        (length (keep (in_range from_ms to_ms) db.audit_events)) in
    let issues = map issue_text (keep is_issue articles) in
    record {
      articles = articles;
      issues = issues;
      overall_status = if non_empty issues then "WARNING" else "COMPLIANT";
    }
