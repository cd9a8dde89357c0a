-- ===== src/Sanitizer/Guardrail/Laws.antt =====
-- What the guardrail lets through.
use secure_claw.Base.{
  String, ◌≡◌, refl, true, false, not, ◌&&◌, ◌||◌, none, some, List, [], ◌∷◌, ◌++◌, arith,
  if◌then◌else◌, any, any-append, non_empty, Bool-cases, inl, inr,
}
use secure_claw.Base.Text.{includes}
use secure_claw.Sanitizer.{Runtime}
use secure_claw.Sanitizer.Guardrail.{
  PiiDetectionResult, pii_types, is_destructive, is_block, detect_types, detect_and_redact_pii,
  check_output_guardrails, pii_violations, vault_violations, url_violations, is_outbound,
  any_suspicious_url,
}

module _ (rt : Runtime) where
  -- the content with each kind of personal data that it has masked in turn
  abbrev pub masked : String → List (String × String) → String → String
  masked content [] redacted = redacted
  masked content (t ∷ types) redacted =
      masked content types
        (if rt.has_pii t.0 content then rt.mask_pii t.0 redacted t.1 else redacted)

  redacted-detect_types :
      (types : List (String × String)) (content : String) (found : List String) (redacted : String)
      → (detect_types rt types content found redacted).redacted_content
        ≡ masked content types redacted
  unfolding detect_types
  redacted-detect_types [] content found redacted = refl
  redacted-detect_types ((name, mask) ∷ types) content found redacted =
      redacted-detect_types types content _ _

  non_empty-snoc : (xs : List String) (x : String) → non_empty (xs ++ x ∷ []) ≡ true
  non_empty-snoc [] x = refl
  non_empty-snoc (y ∷ xs) x = refl

  has-detect_types :
      (types : List (String × String)) (content : String) (found : List String) (redacted : String)
      → (detect_types rt types content found redacted).has_pii
        ≡ (non_empty found || any (λ t. rt.has_pii t.0 content) types)
  unfolding detect_types
  has-detect_types [] content [] redacted = refl
  has-detect_types [] content (x ∷ found) redacted = refl
  has-detect_types ((name, mask) ∷ types) content found redacted =
      elim (Bool-cases (rt.has_pii name content)) [
        | inl here ↦
            let rest =
              has-detect_types types content (found ++ name ∷ [])
                (rt.mask_pii name redacted mask) in
            ground (arith, rest, non_empty-snoc found name)
        | inr absent ↦ rw (absent, detect_types) (has-detect_types types content found redacted)
      ]

  pii_never_blocks :
      (pii : PiiDetectionResult) → any (λ v. is_block v.severity) (pii_violations rt pii) ≡ false
  unfolding pii_violations
  pii_never_blocks pii = ground arith

  url_never_blocks :
      (tool_id json : String)
      → any (λ v. is_block v.severity) (url_violations rt tool_id json) ≡ false
  unfolding url_violations
  url_never_blocks tool_id json =
      elim (Bool-cases (is_outbound tool_id && any_suspicious_url rt json)) [
        | inl h ↦ rw h
        | inr h ↦ rw h
      ]

  vault_blocks :
      (json : String)
      → any (λ v. is_block v.severity) (vault_violations rt json) ≡ includes json "__VAULT_REF:"
  unfolding vault_violations
  vault_blocks json = ground arith

  -- A tool call passes exactly when its tool is not destructive or its input has no vault
  -- placeholder; and of a destructive tool the input comes back with every kind of personal data
  -- that is in it masked, if there is any.
  pub check_output_guardrails_verdict :
      (tool_id json : String)
      → ((check_output_guardrails rt tool_id json).passed
          ≡ not (is_destructive tool_id && includes json "__VAULT_REF:"))
        × ((check_output_guardrails rt tool_id json).redacted_output ≡ (
            if is_destructive tool_id && any (λ t. rt.has_pii t.0 json) pii_types
            then some (masked json pii_types json)
            else none))
  unfolding check_output_guardrails detect_and_redact_pii
  check_output_guardrails_verdict tool_id json =
      let pii = detect_types rt pii_types json [] json in
      let masks = redacted-detect_types pii_types json [] json in
      let found = has-detect_types pii_types json [] json in
      elim (Bool-cases (is_destructive tool_id)) [
        | inl destructive ↦ (
          rw destructive (
              simp (any-append, pii_never_blocks pii, vault_blocks, url_never_blocks)
                (ground arith)),
          rw (destructive, found, masks) refl,
        )
        | inr harmless ↦ (rw harmless, rw harmless)
      ]
