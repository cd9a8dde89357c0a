-- ===== src/Sanitizer/Service/Laws.antt =====
-- What `SanitizerService` promises the agent loop.
use secure_claw.Base.{
  ◌<>◌, ℕ, ◌<◌, String, ◌≡◌, refl, Bool, true, false, ◌&&◌, ◌||◌, Option, none, some, List, [], ◌∷◌,
  arith, ◌==◌, any, any-append, keep, non_empty, non_empty-keep, eq_refl, if_cases, Bool-cases, inl,
  inr, Option-cases, ap, sym, ◌∙◌,
}
use secure_claw.Base.Dict
use secure_claw.Sanitizer.{Severity, InjectionMatch, InjectionScanResult, Runtime, failed}
use secure_claw.Sanitizer.Scan.{MultiLayerScanResult, scan_for_injection}
use secure_claw.Sanitizer.Score.{
  Sensitivity, TurnScoreResult, add_matches, get_score, reset_session, is_severity_suspicious,
}
use secure_claw.Sanitizer.Classifier.{classify_external_content}
use secure_claw.Sanitizer.Tagging.{SessionDelimiters, contains_delimiter}
use secure_claw.Sanitizer.Service.{
  SanitizerService, SanitizeExternalContentResult, returns, throws, destroy_session, push_match,
  escape_match, merge_layers, merge_decoded, scan_external, flag_score, sanitize_delimited,
  sanitize_external_content, classify, classify_in, session_scan, layers_of, confident, Mode,
  heuristic,
}

module _ (rt : Runtime) where
  highest-merge_decoded :
      (ms : List InjectionMatch) (scan : InjectionScanResult)
      → (merge_decoded rt ms scan).highest_severity ≡ scan.highest_severity
  unfolding merge_decoded
  highest-merge_decoded [] scan = refl
  highest-merge_decoded (m ∷ ms) scan =
      elim (Bool-cases (any (λ x. x.pattern_id == m.pattern_id) scan.matches)) [
        | inl old ↦ rw (old, merge_decoded) (highest-merge_decoded ms scan)
        | inr new ↦ rw (new, merge_decoded) (highest-merge_decoded ms (push_match m scan))
      ]

  highest-scan_external :
      (content : String) (d : SessionDelimiters) (layers : Option MultiLayerScanResult)
      → (scan_external rt content d layers).highest_severity
        ≡ (scan_for_injection rt content).highest_severity
  unfolding scan_external
  highest-scan_external content d none = ground arith
  highest-scan_external content d (some multi) = elim (Bool-cases (contains_delimiter content d)) [
    | inl escape ↦ rw (escape, highest-merge_decoded)
    | inr plain ↦ rw (plain, highest-merge_decoded)
  ]

  highest-flag_score :
      (turn : TurnScoreResult) (scan : InjectionScanResult)
      → (flag_score rt turn scan).highest_severity ≡ scan.highest_severity
  unfolding flag_score
  highest-flag_score turn scan = ground arith

  -- a result comes from `sanitize_delimited`, under the session's delimiters
  pub returned :
      (content session source : String) (s : SanitizerService) (r : SanitizeExternalContentResult)
      → (sanitize_external_content rt content session source s).1 ≡ returns r
      → (d : SessionDelimiters) × (Dict.get s.session_delimiters session ≡ some d)
        × (r ≡ (sanitize_delimited rt content session source d s).1)
  unfolding sanitize_external_content
  returned content session source s r h =
      elim (Option-cases (Dict.get s.session_delimiters session)) [
        | inl missing ↦ absurd (ground arith)
        | inr (d, found) ↦ (d, found, ground arith)
      ]

  -- Where `sanitize_external_content` returns a result, its `highest_severity` is that of the scan
  -- of the raw text: a critical match that was found in a decoded layer, and the critical match of
  -- an attempt to reproduce the session delimiters, do not raise it.
  pub highest_severity_is_of_raw_text :
      (content session source : String) (s : SanitizerService) (r : SanitizeExternalContentResult)
      → (sanitize_external_content rt content session source s).1 ≡ returns r
      → r.injection_scan.highest_severity ≡ (scan_for_injection rt content).highest_severity
  unfolding sanitize_delimited session_scan
  highest_severity_is_of_raw_text content session source s r h =
      let (d, found, e) = returned content session source s r h in
      rw e (rw (highest-flag_score, highest-scan_external))

  any-merge_decoded :
      (p : InjectionMatch → Bool) (ms : List InjectionMatch) (scan : InjectionScanResult)
      → any p scan.matches ≡ true
      → any p (merge_decoded rt ms scan).matches ≡ true
  unfolding merge_decoded
  any-merge_decoded p [] scan h = h
  any-merge_decoded p (m ∷ ms) scan h = any-merge_decoded p ms _ (
      if_cases (λ x. any p x.matches ≡ true) (any (λ x. x.pattern_id == m.pattern_id) scan.matches)
        {x = scan} {y = push_match m scan} (λ e. h)
        (λ e. ground (arith, any-append p scan.matches (m ∷ []))))

  -- some match of the text, or of the delimiter check, counts at the service's sensitivity
  raw_matches : String → SessionDelimiters → (InjectionMatch → Bool) → Bool
  raw_matches content d p =
      any p (scan_for_injection rt content).matches
      || (contains_delimiter content d && p (escape_match content))

  any-merge_layers :
      (p : InjectionMatch → Bool) (layers : Option MultiLayerScanResult)
      (scan : InjectionScanResult)
      → any p scan.matches ≡ true
      → any p (merge_layers rt layers scan).matches ≡ true
  unfolding merge_layers
  any-merge_layers p none scan h = h
  any-merge_layers p (some multi) scan h = any-merge_decoded p multi.all_matches scan h

  any-scan_external :
      (p : InjectionMatch → Bool) (content : String) (d : SessionDelimiters)
      (layers : Option MultiLayerScanResult)
      → raw_matches content d p ≡ true
      → any p (scan_external rt content d layers).matches ≡ true
  unfolding scan_external raw_matches
  any-scan_external p content d layers h =
      let plain = scan_for_injection rt content in
      any-merge_layers p layers _ (
        if_cases (λ x. any p x.matches ≡ true) (contains_delimiter content d)
          {x = push_match (escape_match content) plain} {y = plain}
          (λ e. ground (arith, any-append p plain.matches (escape_match content ∷ [])))
          (λ e. ground arith))

  critical_counts : (l : Sensitivity) → is_severity_suspicious l Severity.critical ≡ true
  unfolding is_severity_suspicious
  critical_counts Sensitivity.low = refl
  critical_counts Sensitivity.medium = refl
  critical_counts Sensitivity.high = refl

  abbrev Flagged : SanitizerService → String → SessionDelimiters → Type 0
  Flagged s content d =
      (any (λ m. is_severity_suspicious s.config.sensitivity m.severity)
          (scan_for_injection rt content).matches
        || contains_delimiter content d)
      ≡ true

  sensitive_found :
      (s : SanitizerService) (content : String) (d : SessionDelimiters)
      → Flagged s content d
      → non_empty (
          keep
            (λ m. is_severity_suspicious s.config.sensitivity m.severity)
            (session_scan rt s content d).matches)
        ≡ true
  unfolding session_scan
  sensitive_found s content d h = rw non_empty-keep (
      any-scan_external _ content d (layers_of rt s content)
        (unfold raw_matches escape_match in ground (arith, critical_counts s.config.sensitivity)))

  -- Where `sanitize_external_content` returns a result, the content is flagged, whatever the
  -- classifier says, if a match of the raw text is as
  -- severe as the configured sensitivity asks, or if it holds a delimiter of its session, which is
  -- flagged at every sensitivity.
  pub external_content_is_flagged :
      (content session source : String) (s : SanitizerService) (r : SanitizeExternalContentResult)
      (d : SessionDelimiters)
      → (sanitize_external_content rt content session source s).1 ≡ returns r
      → Dict.get s.session_delimiters session ≡ some d
      → (any
            (λ m. is_severity_suspicious s.config.sensitivity m.severity)
            (scan_for_injection rt content).matches
          || contains_delimiter content d)
        ≡ true
      → r.is_suspicious ≡ true
  unfolding sanitize_delimited
  external_content_is_flagged content session source s r d h found flagged =
      let (d', found', e) = returned content session source s r h in
      let same : d ≡ d' = cc (found, found') in
      rw (e, sensitive_found s content d' (rw same at flagged))

  confident_failed :
      (content message : String) (threshold : ℕ) (mode : Mode)
      → 500 < threshold
      → confident rt threshold
          (classify_in rt mode (some (λ prompt tokens. failed message)) content)
        ≡ false
  unfolding classify_in classify_external_content
  confident_failed content message threshold heuristic above = refl
  confident_failed content message threshold mode above = ground arith

  unasked_is_not_confident :
      (content : String) (threshold : ℕ) (mode : Mode)
      → confident rt threshold (classify_in rt mode none content) ≡ false
  unfolding classify_in
  unasked_is_not_confident content threshold heuristic = refl
  unasked_is_not_confident content threshold mode = ground arith

  -- Under a threshold above 0.5, as the default one is, a classifier whose call fails decides
  -- nothing: content is flagged exactly if the service would flag it without a classifier.
  pub failed_classifier_is_not_flagged :
      (content session source message : String) (s : SanitizerService) (d : SessionDelimiters)
      → s.llm_classifier ≡ some (λ prompt tokens. failed message)
      → 500 < s.config.llm_threshold
      → (sanitize_delimited rt content session source d s).1.is_suspicious ≡ (
          let unclassified = record s { llm_classifier = none } in
          (sanitize_delimited rt content session source d unclassified).1.is_suspicious)
  unfolding sanitize_delimited classify session_scan layers_of
  failed_classifier_is_not_flagged content session source message s d fails above =
      let scan = session_scan rt s content d in
      let sensitive =
        keep (λ m. is_severity_suspicious s.config.sensitivity m.severity) scan.matches in
      let turn = (add_matches session scan.matches s.tracker).1 in
      let unsure =
        rw (← fails) at
          (confident_failed content message s.config.llm_threshold s.config.mode above) in
      ap (λ b. non_empty sensitive || (turn.threshold_exceeded || b))
        (unsure ∙ sym (unasked_is_not_confident content s.config.llm_threshold s.config.mode))

  delimited_elsewhere :
      (d : SessionDelimiters) (content session other source : String) (s : SanitizerService)
      → (session == other) ≡ false
      → (sanitize_delimited rt content other source d (destroy_session session s)).1
        ≡ (sanitize_delimited rt content other source d s).1
  unfolding sanitize_delimited destroy_session reset_session add_matches session_scan layers_of
      classify
  delimited_elsewhere d content session other source s h =
      rw (Dict.get-delete s.tracker.scores session other, h)

  external_elsewhere :
      (content session other source : String) (s : SanitizerService)
      → (session == other) ≡ false
      → (sanitize_external_content rt content other source (destroy_session session s)).1
        ≡ (sanitize_external_content rt content other source s).1
  unfolding sanitize_external_content
  external_elsewhere content session other source s h =
      let kept = rw h at (Dict.get-delete s.session_delimiters session other) in
      let kept' : Dict.get (destroy_session session s).session_delimiters other
          ≡ Dict.get s.session_delimiters other =
        unfold destroy_session in kept in
      elim (Option-cases (Dict.get s.session_delimiters other)) [
        | inl missing ↦ rw (kept', missing, sanitize_external_content)
        | inr (d, found) ↦
            rw (kept', found, sanitize_external_content)
              (ap returns (delimited_elsewhere d content session other source s h))
      ]

  -- Once a session is destroyed, sanitizing external content for it throws and its score is zero,
  -- while for another session the result is the one that it would have been.
  pub destroyed_session :
      (content session other source : String) (s : SanitizerService)
      → (session == other) ≡ false
      → ((message : String) × ((sanitize_external_content rt content session source
              (destroy_session session s)).1
            ≡ throws message))
        × (get_score session (destroy_session session s).tracker ≡ 0)
        × ((sanitize_external_content rt content other source (destroy_session session s)).1
            ≡ (sanitize_external_content rt content other source s).1)
  unfolding sanitize_external_content destroy_session get_score reset_session
  destroyed_session content session other source s h = (
    (
      "No session delimiters found for session " <> (session <> ". Call initSession() first."),
      ground (arith, Dict.get-delete s.session_delimiters session session, eq_refl session),
    ),
    ground (arith, Dict.get-delete s.tracker.scores session session, eq_refl session),
    external_elsewhere content session other source s h,
  )
