-- ===== src/Agent/Executor/Output.antt =====
-- What the model is shown of a tool's output, with the sanitizer of packages/input-sanitizer.
use secure_claw.Base.{
  String, ◌≡◌, refl, sym, ap, true, ◌&&◌, Option, none, some, List, [], ◌∷◌, arith, ◌==◌,
  if◌then◌else◌, any, Bool-cases, if_cases, inl, inr, ◌<>◌,
}
use secure_claw.Sanitizer.{is_critical, Runtime, InjectionMatch, InjectionScanResult}
use secure_claw.Sanitizer.Scan.{
  scan_for_injection, scan_result, scan_patterns, injection_patterns, MultiLayerScanResult,
}
use secure_claw.Sanitizer.Score.{TurnScoreResult}
use secure_claw.Sanitizer.Tagging.{SessionDelimiters, contains_delimiter}
use secure_claw.Sanitizer.Service.{
  SanitizerService, SanitizeExternalContentResult, Outcome, returns, throws, merge_decoded,
  merge_layers, scan_external, session_scan, layers_of, flag_score, sanitize_delimited,
  sanitize_external_content,
}
use secure_claw.Sanitizer.Service.Laws.{returned, highest_severity_is_of_raw_text}
use secure_claw.Session.Context.{SessionContext}
use secure_claw.Agent.Executor.{Env, PendingToolCall, ToolCallResult}
use secure_claw.Agent.Executor.Single.{
  target, run_target, is_injection, finish, conclude, suppressed, run_checked, call_event,
}

module _ (rt : Runtime) where
  suspicious_if_critical :
      (ms : List InjectionMatch)
      → is_critical (scan_result ms).highest_severity ≡ true
      → (scan_result ms).is_suspicious ≡ true
  unfolding scan_result
  suspicious_if_critical [] h = cc
  suspicious_if_critical (m ∷ ms) h = refl

  suspicious-merge_decoded :
      (ms : List InjectionMatch) (scan : InjectionScanResult)
      → scan.is_suspicious ≡ true
      → (merge_decoded rt ms scan).is_suspicious ≡ true
  unfolding merge_decoded
  suspicious-merge_decoded [] scan h = h
  suspicious-merge_decoded (m ∷ ms) scan h = suspicious-merge_decoded ms _ (
      if_cases {A = InjectionScanResult} (λ x. x.is_suspicious ≡ true)
        (any (λ x. x.pattern_id == m.pattern_id) scan.matches) (λ e. h) (λ e. refl))

  suspicious-scan_external :
      (content : String) (d : SessionDelimiters) (layers : Option MultiLayerScanResult)
      → (scan_for_injection rt content).is_suspicious ≡ true
      → (scan_external rt content d layers).is_suspicious ≡ true
  unfolding scan_external merge_layers
  suspicious-scan_external content d none h =
      if_cases {A = InjectionScanResult} (λ x. x.is_suspicious ≡ true)
        (contains_delimiter content d) (λ e. refl) (λ e. h)
  suspicious-scan_external content d (some multi) h = suspicious-merge_decoded multi.all_matches _ (
      if_cases {A = InjectionScanResult} (λ x. x.is_suspicious ≡ true)
        (contains_delimiter content d) (λ e. refl) (λ e. h))

  suspicious-flag_score :
      (turn : TurnScoreResult) (scan : InjectionScanResult)
      → scan.is_suspicious ≡ true
      → (flag_score rt turn scan).is_suspicious ≡ true
  unfolding flag_score
  suspicious-flag_score turn scan h =
      if_cases {A = InjectionScanResult} (λ x. x.is_suspicious ≡ true) _ (λ e. refl) (λ e. h)

  suspicious-sanitized :
      (content session source : String) (s : SanitizerService) (r : SanitizeExternalContentResult)
      → (sanitize_external_content rt content session source s).1 ≡ returns r
      → (scan_for_injection rt content).is_suspicious ≡ true
      → r.injection_scan.is_suspicious ≡ true
  unfolding sanitize_delimited session_scan
  suspicious-sanitized content session source s r h raw =
      let (d, found, e) = returned rt content session source s r h in
      rw e (
        suspicious-flag_score _ _ (suspicious-scan_external content d (layers_of rt s content) raw))

  raw_suspicious :
      (content : String)
      → is_critical (scan_for_injection rt content).highest_severity ≡ true
      → (scan_for_injection rt content).is_suspicious ≡ true
  unfolding scan_for_injection
  raw_suspicious content h = suspicious_if_critical (scan_patterns rt injection_patterns content) h

  critical_is_reported :
      (content session source : String) (s : SanitizerService) (r : SanitizeExternalContentResult)
      → (sanitize_external_content rt content session source s).1 ≡ returns r
      → (r.injection_scan.is_suspicious && is_critical r.injection_scan.highest_severity)
        ≡ is_critical (scan_for_injection rt content).highest_severity
  critical_is_reported content session source s r h =
      rw (highest_severity_is_of_raw_text rt content session source s r h)
        (elim (Bool-cases (is_critical (scan_for_injection rt content).highest_severity)) [
          | inl raw ↦
              rw (
                raw,
                suspicious-sanitized content session source s r h (raw_suspicious content raw),
              )
          | inr calm ↦ rw calm (ground arith)
        ])

  module _ (env : Env) (ctx : SessionContext) (pc : PendingToolCall) where
    -- the raw output of a call's run, on the input that it is run with
    abbrev pub output_of : String → String
    output_of input_json = (run_target env ctx pc (target env ctx pc input_json)).text

    abbrev pub SanitizedBy : Type 0
    SanitizedBy =
        (content session source : String) (s : SanitizerService)
        → env.sanitize content session source s
          ≡ sanitize_external_content rt content session source s

    abbrev pub Shown : String → SanitizerService → ToolCallResult → Type 0
    Shown input_json s r =
        (scan : SanitizeExternalContentResult) × ((sanitize_external_content rt
            (output_of input_json) ctx.session_id ("tool:" <> pc.tool_id) s).1
          ≡ returns scan)
        × (r.result ≡ (
            if is_critical (scan_for_injection rt (output_of input_json)).highest_severity
            then suppressed env ctx pc
            else scan.wrapped_content))

    Shown-of_scan :
        (input_json : String) (s : SanitizerService) (o : Outcome SanitizeExternalContentResult)
        (s' : SanitizerService) (r : ToolCallResult)
        → (sanitize_external_content rt
            (output_of input_json)
            ctx.session_id
            ("tool:" <> pc.tool_id)
            s).1
          ≡ o
        → (conclude env ctx pc
            (call_event env ctx pc)
            (run_target env ctx pc (target env ctx pc input_json))
            s'
            o).2
          ≡ returns r
        → Shown input_json s r
    unfolding conclude finish is_injection
    Shown-of_scan input_json s (throws message) s' r e h = absurd (ground arith)
    Shown-of_scan input_json s (returns scan) s' r e h =
        let same = critical_is_reported _ _ _ s scan e in (scan, e, ground (arith, same))

    -- If the executor's sanitizer is the one that is modelled, and the call ends without an exception,
    -- the model sees a suppression notice in place of the output of a run exactly when the scan of
    -- the raw output has a critical match, and the wrapped output otherwise. So an output whose
    -- only critical matches are in a decoded layer, or are the session's delimiters, is shown.
    pub output_is_judged_raw :
        (input_json : String) (s : SanitizerService) (r : ToolCallResult)
        → SanitizedBy
        → (run_checked env ctx pc input_json s).2 ≡ returns r
        → Shown input_json s r
    unfolding run_checked
    output_is_judged_raw input_json s r by h =
        Shown-of_scan input_json s _ _ r
          (ap (λ x. x.1) (sym (by (output_of input_json) ctx.session_id ("tool:" <> pc.tool_id) s)))
          h
