-- ===== src/Sanitizer.antt =====
-- packages/input-sanitizer/src: the types that its modules share, and what they take from the
-- JavaScript runtime.
pub mod Scan
pub mod Score
pub mod Classifier
pub mod Tagging
pub mod State
pub mod Service
pub mod Guardrail
use secure_claw.Base.{ℕ, String, Bool, true, false, Option, none, some, List}

pub data Severity : Type 0 where
  low medium high critical : Severity

-- `SEVERITY_ORDER`
abbrev pub order : Severity → ℕ
order low = 1
order medium = 2
order high = 3
order critical = 4

-- `highest_severity === "critical"`
abbrev pub is_critical : Option Severity → Bool
is_critical none = false
is_critical (some critical) = true
is_critical (some _) = false

pub record InjectionMatch : Type 0 where
  pub pattern_id : String
  pub severity : Severity
  pub excerpt : String

pub record InjectionScanResult : Type 0 where
  pub is_suspicious : Bool
  pub highest_severity : Option Severity
  pub matches : List InjectionMatch

-- What an LLM call comes back with: a text, or the message of the error that it throws.
pub data Completion : Type 0 where
  text : String → Completion
  failed : String → Completion

-- The fields of the classifier's JSON answer after the coercions, `none` where a field is not
-- there. A confidence is counted in thousandths; NaN is `none` inside `some`.
pub record ClassifierJson : Type 0 where
  pub is_safe : Option Bool
  pub contains_instructions : Option Bool
  pub injection_confidence : Option (Option ℕ)
  pub reasoning : Option String

-- The runtime: its regular expressions, by the id of the pattern in the source, and its codecs.
-- Nothing is assumed of them.
pub record Runtime : Type 0 where
  -- the index and the length of the first match of an injection pattern
  pub exec_pattern : String → String → Option record { index : ℕ; size : ℕ }
  -- the matches of BASE64_SEGMENT_RE, `Buffer.from(s, "base64").toString("utf-8")`, and the test for
  -- a printable character
  pub base64_segments : String → List String
  pub base64_text : String → String
  pub has_printable : String → Bool
  -- `decodeURIComponent`; `none` is a thrown URIError
  pub decode_uri : String → Option String
  -- `normalize("NFKD")`, and the removal of U+0300 to U+036F
  pub nfkd : String → String
  pub strip_marks : String → String
  -- the first `{…}` in an LLM's answer, and its fields if it is JSON
  pub extract_json : String → Option String
  pub parse_classification : String → Option ClassifierJson
  -- PII patterns by name: a test, and a replacement of every match by a mask
  pub has_pii : String → String → Bool
  pub mask_pii : String → String → String → String
  -- the patterns of exfiltration services, by their position in the source
  pub is_suspicious_url : ℕ → String → Bool
  -- the removal of the characters ' " < >
  pub strip_quotes : String → String
  -- a number in a template literal
  pub show : ℕ → String
