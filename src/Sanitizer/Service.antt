-- ===== src/Sanitizer/Service.antt =====
-- packages/input-sanitizer/src/sanitizer.ts: `SanitizerService`. A method returns the new service;
-- `throws` is an exception, of which the service is left as it was.
pub mod Laws
use secure_claw.Base.{
  ℕ, ◌+◌, String, ◌<>◌, Bool, true, false, not, ◌&&◌, ◌||◌, Option, none, some, List, [], ◌∷◌, ◌++◌,
  map, ◌==◌, if◌then◌else◌, leb, any, keep, first, non_empty,
}
use secure_claw.Base.Dict
use secure_claw.Base.Dict.{Dict}
use secure_claw.Base.Text.{slice_to, join}
use secure_claw.Sanitizer.{Severity, is_critical, InjectionMatch, InjectionScanResult, Runtime}
use secure_claw.Sanitizer.Scan.{
  DecodeLayer, base64, url_encoded, unicode_normalized, MultiLayerScanResult, scan_for_injection,
  scan_with_decoded_layers,
}
use secure_claw.Sanitizer.Score.{
  Sensitivity, TurnScoreTracker, TurnScoreResult, add_matches, reset_session,
  is_severity_suspicious,
}
use secure_claw.Sanitizer.Classifier.{
  ClassificationResult, ClassifierAdapter, classify_external_content, reaches,
}
use secure_claw.Sanitizer.Tagging.{
  SessionDelimiters, create_session_delimiters, contains_delimiter, wrap_external_content,
  tag_user_instruction, tag_external_data, format_tagged_content,
}
pub use secure_claw.Sanitizer.State.{
  decode_layers, Mode, heuristic, llm, both, SanitizerConfig, SanitizerService,
  SanitizeUserInputResult, SanitizeExternalContentResult, Outcome, returns, throws, push_match,
  mentions_delimiter,
}
unfoldable pub use secure_claw.Sanitizer.State.{
  parse_sensitivity, default_config, new_service, init_session, destroy_session, escape_match,
}

module _ (rt : Runtime) where
  -- the scan of a user's message, with the match that `sanitizeUserInput` adds
  unfoldable pub scan_user_input : String → Option SessionDelimiters → InjectionScanResult
  scan_user_input content delimiters =
      let scan = scan_for_injection rt content in
      if mentions_delimiter content delimiters
      then push_match
          (record {
            pattern_id = "SESSION_DELIMITER_IN_USER_INPUT";
            severity = Severity.high;
            excerpt = slice_to 200 content;
          })
          scan
      else scan

  unfoldable pub sanitize_user_input :
      String → String → SanitizerService → SanitizerService × SanitizeUserInputResult
  unfolding scan_user_input
  sanitize_user_input content session_id s =
      let scan = scan_user_input content (Dict.get s.session_delimiters session_id) in
      let (tracker, turn) = add_matches session_id scan.matches s.tracker in
      (
        record s { tracker = tracker },
        record {
          safe_content = format_tagged_content (tag_user_instruction content);
          injection_scan = scan;
          was_blocked = false;
          turn_score_exceeded = turn.threshold_exceeded;
        },
      )

  -- the loop that merges the matches of the decoded layers
  unfoldable pub merge_decoded : List InjectionMatch → InjectionScanResult → InjectionScanResult
  merge_decoded [] scan = scan
  merge_decoded (m ∷ ms) scan =
      merge_decoded ms
        (if any (λ x. x.pattern_id == m.pattern_id) scan.matches then scan else push_match m scan)

  unfoldable pub merge_layers :
      Option MultiLayerScanResult → InjectionScanResult → InjectionScanResult
  unfolding merge_decoded
  merge_layers none scan = scan
  merge_layers (some multi) scan = merge_decoded multi.all_matches scan

  multi_layer : String → List DecodeLayer → Option MultiLayerScanResult
  multi_layer content [] = none
  multi_layer content (l ∷ ls) = some (scan_with_decoded_layers rt content (l ∷ ls))

  -- steps 1 to 3 of `sanitizeExternalContent`
  unfoldable pub scan_external :
      String → SessionDelimiters → Option MultiLayerScanResult → InjectionScanResult
  unfolding merge_layers
  scan_external content delimiters layers =
      let scan = scan_for_injection rt content in
      let scan' =
        if contains_delimiter content delimiters
        then push_match (escape_match content) scan
        else scan in
      merge_layers layers scan'

  -- the synthetic match of step 5
  unfoldable pub flag_score : TurnScoreResult → InjectionScanResult → InjectionScanResult
  flag_score turn scan =
      if turn.threshold_exceeded
        && not (any (λ m. m.pattern_id == "TURN_SCORE_THRESHOLD_EXCEEDED") scan.matches)
      then push_match
          (record {
            pattern_id = "TURN_SCORE_THRESHOLD_EXCEEDED";
            severity = Severity.high;
            excerpt =
                "Accumulated score "
                <> (rt.show turn.current_score <> (" >= threshold " <> rt.show turn.threshold));
          })
          scan
      else scan

  called : Option ClassifierAdapter → String → Option ClassificationResult
  called none content = none
  called (some adapter) content = some (classify_external_content rt content adapter)

  unfoldable pub classify_in :
      Mode → Option ClassifierAdapter → String → Option ClassificationResult
  unfolding called
  classify_in heuristic adapter content = none
  classify_in llm adapter content = called adapter content
  classify_in both adapter content = called adapter content

  -- step 6
  unfoldable pub classify : SanitizerService → String → Option ClassificationResult
  unfolding classify_in
  classify s content = classify_in s.config.mode s.llm_classifier content

  abbrev pub confident : ℕ → Option ClassificationResult → Bool
  confident threshold none = false
  confident threshold (some c) = reaches c.injection_confidence threshold

  abbrev show_confidence : Option ClassificationResult → String
  show_confidence none = rt.show 0
  show_confidence (some c) = elim c.injection_confidence [ none ↦ "NaN" | some n ↦ rt.show n ]

  suspicion_reason :
      Bool → Bool → List InjectionMatch → TurnScoreResult → Option ClassificationResult → String
  suspicion_reason from_heuristic exceeded sensitive turn classification =
      if from_heuristic
      then "Heuristic: " <> join ", " (map (λ m. m.pattern_id) sensitive)
      else if exceeded
      then "Turn score threshold exceeded: "
        <> (rt.show turn.current_score <> ("/" <> rt.show turn.threshold))
      else "LLM classifier confidence: " <> show_confidence classification

  -- the scan of steps 1 to 3, with the layers of the configured sensitivity
  unfoldable pub layers_of : SanitizerService → String → Option MultiLayerScanResult
  unfolding multi_layer
  layers_of s content = multi_layer content (decode_layers s.config.sensitivity)

  unfoldable pub session_scan : SanitizerService → String → SessionDelimiters → InjectionScanResult
  unfolding scan_external layers_of
  session_scan s content delimiters = scan_external content delimiters (layers_of s content)

  -- steps 4 to 7, for a session that has delimiters
  unfoldable pub sanitize_delimited :
      String
      → String
      → String
      → SessionDelimiters
      → SanitizerService
      → SanitizerService × SanitizeExternalContentResult
  unfolding suspicion_reason
  sanitize_delimited content session_id source delimiters s =
      let scan = session_scan s content delimiters in
      let sensitive =
        keep (λ m. is_severity_suspicious s.config.sensitivity m.severity) scan.matches in
      let from_heuristic = non_empty sensitive in
      let (tracker, turn) = add_matches session_id scan.matches s.tracker in
      let exceeded = turn.threshold_exceeded in
      let classification = classify s content in
      let is_suspicious =
        from_heuristic || (exceeded || confident s.config.llm_threshold classification) in
      (
        record s { tracker = tracker },
        record {
          wrapped_content =
              wrap_external_content rt (format_tagged_content (tag_external_data content source))
                delimiters (some source);
          injection_scan = flag_score turn scan;
          multi_layer_scan = layers_of s content;
          llm_classification = classification;
          is_suspicious = is_suspicious;
          suspicion_reason =
              if is_suspicious
              then some (suspicion_reason from_heuristic exceeded sensitive turn classification)
              else none;
          turn_score_exceeded = exceeded;
        },
      )

  unfoldable pub sanitize_external_content :
      String
      → String
      → String
      → SanitizerService
      → SanitizerService × Outcome SanitizeExternalContentResult
  unfolding sanitize_delimited
  sanitize_external_content content session_id source s =
      elim (Dict.get s.session_delimiters session_id) [
        | none ↦ (
          s,
          throws (
              "No session delimiters found for session "
              <> (session_id <> ". Call initSession() first.")),
        )
        | some delimiters ↦
            let (s', result) = sanitize_delimited content session_id source delimiters s in
            (s', returns result)
      ]

  -- `assertNotInjection`: the pattern and the excerpt of the exception, if it is thrown
  unfoldable pub assert_not_injection : String → SanitizerService → Option (String × String)
  assert_not_injection content s =
      let result = scan_for_injection rt content in
      if result.is_suspicious && (is_critical result.highest_severity && s.config.block_on_critical)
      then (elim (first result.matches) [ none ↦ none | some m ↦ some (m.pattern_id, m.excerpt) ])
      else none
