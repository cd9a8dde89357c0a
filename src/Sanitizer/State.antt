-- ===== src/Sanitizer/State.antt =====
-- packages/input-sanitizer/src/sanitizer.ts: the configuration and the state of the sanitizer, and the
-- sessions that begin and end.
use secure_claw.Base.{
  ℕ, String, Bool, true, false, Option, none, some, List, [], ◌∷◌, ◌++◌, ◌==◌, if◌then◌else◌,
}
use secure_claw.Base.Dict
use secure_claw.Base.Dict.{Dict}
use secure_claw.Base.Text.{slice_to}
use secure_claw.Sanitizer.{Severity, InjectionMatch, InjectionScanResult}
use secure_claw.Sanitizer.Scan.{
  DecodeLayer, base64, url_encoded, unicode_normalized, MultiLayerScanResult,
}
use secure_claw.Sanitizer.Score.{Sensitivity, TurnScoreTracker, reset_session}
use secure_claw.Sanitizer.Classifier.{ClassificationResult, ClassifierAdapter}
use secure_claw.Sanitizer.Tagging.{SessionDelimiters, create_session_delimiters, contains_delimiter}

-- `DECODE_LAYERS_BY_SENSITIVITY`
abbrev pub decode_layers : Sensitivity → List DecodeLayer
decode_layers Sensitivity.low = []
decode_layers Sensitivity.medium = base64 ∷ url_encoded ∷ []
decode_layers Sensitivity.high = base64 ∷ url_encoded ∷ unicode_normalized ∷ []

pub data Mode : Type 0 where
  heuristic llm both : Mode

-- `llm_threshold` is counted in thousandths.
pub record SanitizerConfig : Type 0 where
  pub mode : Mode
  pub llm_threshold : ℕ
  pub block_on_critical : Bool
  pub sensitivity : Sensitivity

-- `DEFAULT_CONFIG`, for the sensitivity that the environment gives
unfoldable pub parse_sensitivity : Option String → Sensitivity
parse_sensitivity none = Sensitivity.medium
parse_sensitivity (some raw) =
    if raw == "low"
    then Sensitivity.low
    else if raw == "medium"
    then Sensitivity.medium
    else if raw == "high"
    then Sensitivity.high
    else Sensitivity.medium

unfoldable pub default_config : Option String → SanitizerConfig
unfolding parse_sensitivity
default_config raw = record {
  mode = both;
  llm_threshold = 700;
  block_on_critical = true;
  sensitivity = parse_sensitivity raw;
}

pub record SanitizerService : Type 0 where
  pub config : SanitizerConfig
  pub session_delimiters : Dict SessionDelimiters
  pub llm_classifier : Option ClassifierAdapter
  pub tracker : TurnScoreTracker

unfoldable pub new_service : SanitizerConfig → Option ClassifierAdapter → SanitizerService
new_service config classifier = record {
  config = config;
  session_delimiters = [];
  llm_classifier = classifier;
  tracker = record { scores = []; sensitivity = config.sensitivity };
}

pub record SanitizeUserInputResult : Type 0 where
  pub safe_content : String
  pub injection_scan : InjectionScanResult
  pub was_blocked : Bool
  pub turn_score_exceeded : Bool

pub record SanitizeExternalContentResult : Type 0 where
  pub wrapped_content : String
  pub injection_scan : InjectionScanResult
  pub multi_layer_scan : Option MultiLayerScanResult
  pub llm_classification : Option ClassificationResult
  pub is_suspicious : Bool
  pub suspicion_reason : Option String
  pub turn_score_exceeded : Bool

pub data Outcome {ℓ} (A : Type ℓ) : Type ℓ where
  returns : A → Outcome A
  throws : String → Outcome A

-- `initSession`, with the random token in upper case
unfoldable pub init_session :
    String → String → SanitizerService → SanitizerService × SessionDelimiters
init_session session_id token s =
    let delimiters = create_session_delimiters session_id token in
    (
      record s { session_delimiters = Dict.set s.session_delimiters session_id delimiters },
      delimiters,
    )

unfoldable pub destroy_session : String → SanitizerService → SanitizerService
destroy_session session_id s = record s {
  session_delimiters = Dict.delete s.session_delimiters session_id;
  tracker = reset_session session_id s.tracker;
}

-- `injection_scan.matches.push(m)`
abbrev pub push_match : InjectionMatch → InjectionScanResult → InjectionScanResult
push_match m scan = record scan { is_suspicious = true; matches = scan.matches ++ m ∷ [] }

abbrev pub mentions_delimiter : String → Option SessionDelimiters → Bool
mentions_delimiter content none = false
mentions_delimiter content (some d) = contains_delimiter content d

-- the match that step 2 of `sanitizeExternalContent` adds
unfoldable pub escape_match : String → InjectionMatch
escape_match content = record {
  pattern_id = "SESSION_DELIMITER_ESCAPE_ATTEMPT";
  severity = Severity.critical;
  excerpt = slice_to 200 content;
}
