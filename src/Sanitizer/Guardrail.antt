-- ===== src/Sanitizer/Guardrail.antt =====
-- output/output-guardrail.ts and heuristic/pii.detector.ts of packages/input-sanitizer/src.
pub mod Laws
use secure_claw.Base.{
  ℕ, String, ◌<>◌, Bool, true, false, not, ◌||◌, Option, none, some, List, [], ◌∷◌, ◌++◌, map, ◌==◌,
  if◌then◌else◌, any, ◌&&◌,
}
use secure_claw.Base.Text.{join, includes}
use secure_claw.Sanitizer.{Runtime}
use text.Mathlib.Text.{starts_with}

-- the names and the masks of `PII_TYPES`
abbrev pub pii_types : List (String × String)
pii_types =
    ("EMAIL", "[EMAIL_REDACTED]")
    ∷ ("PHONE_US", "[PHONE_REDACTED]")
    ∷ ("SSN", "[SSN_REDACTED]")
    ∷ ("CREDIT_CARD", "[CC_REDACTED]")
    ∷ ("API_KEY_ANTHROPIC", "[ANTHROPIC_KEY_REDACTED]")
    ∷ ("API_KEY_OPENAI", "[OPENAI_KEY_REDACTED]")
    ∷ ("API_KEY_GOOGLE", "[GOOGLE_KEY_REDACTED]")
    ∷ ("AWS_ACCESS_KEY", "[AWS_KEY_REDACTED]")
    ∷ ("PRIVATE_KEY_BLOCK", "[PRIVATE_KEY_REDACTED]")
    ∷ []

pub record PiiDetectionResult : Type 0 where
  pub has_pii : Bool
  pub types_found : List String
  pub redacted_content : String

pub data ViolationSeverity : Type 0 where
  warn block : ViolationSeverity

pub record GuardrailViolation : Type 0 where
  pub check_id : String
  pub message : String
  pub severity : ViolationSeverity

pub record GuardrailResult : Type 0 where
  pub passed : Bool
  pub violations : List GuardrailViolation
  pub redacted_output : Option String

abbrev pub destructive_tool_ids : List String
destructive_tool_ids =
    "send_message" ∷ "send_email" ∷ "file_write" ∷ "file_delete" ∷ "shell_exec" ∷ "network_post"
    ∷ "network_put" ∷ "network_delete" ∷ "browser_form_fill" ∷ "browser_click_submit" ∷ []

unfoldable pub is_destructive : String → Bool
is_destructive tool_id = any (λ id. id == tool_id) destructive_tool_ids

abbrev pub is_block : ViolationSeverity → Bool
is_block warn = false
is_block block = true

-- the tools whose input is searched for suspicious URLs
unfoldable pub is_outbound : String → Bool
is_outbound tool_id =
    starts_with tool_id "network_" || (tool_id == "send_email" || tool_id == "send_message")

module _ (rt : Runtime) where
  -- the loop over the types: each is looked for in the content as it came, and masked in the
  -- content as it is redacted so far
  unfoldable pub detect_types :
      List (String × String) → String → List String → String → PiiDetectionResult
  detect_types [] content found redacted = record {
    has_pii = elim found [ [] ↦ false | _ ∷ _ ↦ true ];
    types_found = found;
    redacted_content = redacted;
  }
  detect_types ((name, mask) ∷ types) content found redacted =
      detect_types types content (if rt.has_pii name content then found ++ name ∷ [] else found)
        (if rt.has_pii name content then rt.mask_pii name redacted mask else redacted)

  unfoldable pub detect_and_redact_pii : String → PiiDetectionResult
  unfolding detect_types
  detect_and_redact_pii content = detect_types pii_types content [] content

  pii_violations : PiiDetectionResult → List GuardrailViolation
  pii_violations pii =
      if pii.has_pii
      then record {
        check_id = "PII_IN_OUTPUT";
        message =
            "PII detected in tool input ("
            <> (join ", " pii.types_found <> "). Review before sending.");
        severity = warn;
      }
        ∷ []
      else []

  vault_violations : String → List GuardrailViolation
  vault_violations tool_input_json =
      if includes tool_input_json "__VAULT_REF:"
      then record {
        check_id = "UNRESOLVED_VAULT_REF";
        message =
            "Tool input contains unresolved vault reference. Credentials must be injected before execution.";
        severity = block;
      }
        ∷ []
      else []

  -- the four patterns, in the order of the source
  unfoldable pub any_suspicious_url : String → Bool
  any_suspicious_url content = any (λ i. rt.is_suspicious_url i content) (0 ∷ 1 ∷ 2 ∷ 3 ∷ [])

  url_violations : String → String → List GuardrailViolation
  url_violations tool_id tool_input_json =
      if is_outbound tool_id && any_suspicious_url tool_input_json
      then record {
        check_id = "SUSPICIOUS_URL";
        message = "Tool input contains a URL associated with data exfiltration services.";
        severity = warn;
      }
        ∷ []
      else []

  unfoldable pub check_output_guardrails : String → String → GuardrailResult
  unfolding pii_violations vault_violations url_violations
  check_output_guardrails tool_id tool_input_json =
      let pii = detect_and_redact_pii tool_input_json in
      let violations =
        pii_violations pii
        ++ (vault_violations tool_input_json ++ url_violations tool_id tool_input_json) in
      if not (is_destructive tool_id)
      then record { passed = true; violations = []; redacted_output = none }
      else record {
        passed = not (any (λ v. is_block v.severity) violations);
        violations = violations;
        redacted_output = if pii.has_pii then some pii.redacted_content else none;
      }
