-- ===== src/Tests/Sanitizing.antt =====
-- The sanitizer at concrete inputs.
use secure_claw.Base.{
  ◌+◌, ◌≤◌, ◌≡◌, refl, ◌↔◌, true, not, ◌&&◌, none, some, List, [], ◌∷◌, any, All, sum_of,
  if◌then◌else◌, arith,
}
use secure_claw.Base.Dict
use secure_claw.Base.Text.{includes}
use secure_claw.Sanitizer.{Severity, InjectionMatch, failed}
use secure_claw.Sanitizer.Scan.{merge_matches, scan_for_injection, scan_patterns, scan_result}
use secure_claw.Sanitizer.Scan.Merge.{covers, NoRepeat, merge_matches-covers}
use secure_claw.Sanitizer.Score.{
  Sensitivity, score, threshold_of, get_score, add_matches, is_severity_suspicious,
}
use secure_claw.Sanitizer.Score.History.{Event, run, suspicion, new_tracker, score_is_history}
use secure_claw.Sanitizer.Tagging.{SessionDelimiters}
use secure_claw.Sanitizer.Service.{
  SanitizerService, SanitizeExternalContentResult, sanitize_delimited, sanitize_external_content,
  Mode,
}
use secure_claw.Sanitizer.Service.Laws.{
  external_content_is_flagged, highest_severity_is_of_raw_text, failed_classifier_is_not_flagged,
}
use secure_claw.Sanitizer.Guardrail.{pii_types, is_destructive, check_output_guardrails}
use secure_claw.Sanitizer.Guardrail.Laws.{masked, check_output_guardrails_verdict}
use secure_claw.Tests.Fixtures.{runtime, service, match}

abbrev layers : List (List InjectionMatch)
layers = (match Severity.low ∷ []) ∷ (match Severity.critical ∷ []) ∷ []

merge_matches-covers_example :
    NoRepeat (merge_matches layers) × All (All (λ m. covers (merge_matches layers) m ≡ true)) layers
merge_matches-covers_example = merge_matches-covers layers

abbrev events : List Event
events =
    Event.scanned "s1" (match Severity.high ∷ [])
    ∷ Event.reset "s2"
    ∷ Event.scanned "s1" (match Severity.low ∷ [])
    ∷ []

score_is_history_example :
    (get_score "s1" (run (new_tracker Sensitivity.high) events) ≡ suspicion "s1" 0 events)
    × (((add_matches "s1"
            (match Severity.medium ∷ [])
            (run (new_tracker Sensitivity.high) events)).1.threshold_exceeded
          ≡ true)
        ↔ (threshold_of Sensitivity.high
            ≤ suspicion "s1" 0 events
              + sum_of (λ m. score m.severity) (match Severity.medium ∷ [])))
score_is_history_example =
    score_is_history Sensitivity.high events "s1" (match Severity.medium ∷ [])

abbrev delimiters : SessionDelimiters
delimiters = record {
  session_id = "s1";
  open_tag = "<<<EXTERNAL_DATA_AB>>>";
  close_tag = "<<<END_EXTERNAL_DATA_AB>>>";
}

abbrev flagged : SanitizeExternalContentResult
flagged = (sanitize_delimited runtime "ignore this" "s1" "web" delimiters service).1

external_content_is_flagged_example : flagged.is_suspicious ≡ true
unfolding sanitize_external_content Dict.get scan_for_injection scan_result scan_patterns includes
    is_severity_suspicious
external_content_is_flagged_example =
    external_content_is_flagged runtime "ignore this" "s1" "web" service flagged delimiters refl
      refl refl

highest_severity_is_of_raw_text_example :
    flagged.injection_scan.highest_severity
    ≡ (scan_for_injection runtime "ignore this").highest_severity
unfolding sanitize_external_content Dict.get
highest_severity_is_of_raw_text_example =
    highest_severity_is_of_raw_text runtime "ignore this" "s1" "web" service flagged refl

abbrev with_failing : SanitizerService
with_failing = record service {
  config = record service.config { mode = Mode.both };
  llm_classifier = some (λ prompt tokens. failed "timeout");
}

failed_classifier_is_not_flagged_example :
    (sanitize_delimited runtime "a report" "s1" "web" delimiters with_failing).1.is_suspicious ≡ (
      let unclassified = record with_failing { llm_classifier = none } in
      (sanitize_delimited runtime "a report" "s1" "web" delimiters unclassified).1.is_suspicious)
failed_classifier_is_not_flagged_example =
    failed_classifier_is_not_flagged runtime "a report" "s1" "web" "timeout" with_failing delimiters
      refl (omega arith)

check_output_guardrails_verdict_example :
    ((check_output_guardrails runtime "shell_exec" "a@b.c").passed
      ≡ not (is_destructive "shell_exec" && includes "a@b.c" "__VAULT_REF:"))
    × ((check_output_guardrails runtime "shell_exec" "a@b.c").redacted_output ≡ (
        if is_destructive "shell_exec" && any (λ t. runtime.has_pii t.0 "a@b.c") pii_types
        then some (masked runtime "a@b.c" pii_types "a@b.c")
        else none))
check_output_guardrails_verdict_example =
    check_output_guardrails_verdict runtime "shell_exec" "a@b.c"
