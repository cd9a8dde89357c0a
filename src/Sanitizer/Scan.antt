-- ===== src/Sanitizer/Scan.antt =====
-- heuristic/injection.detector.ts, heuristic/injection.patterns.ts (ids and severities) and
-- encoding/decode-layers.ts of packages/input-sanitizer/src.
pub mod Merge
use secure_claw.Base.{
  ℕ, ◌+◌, ◌-◌, String, ◌<>◌, Bool, true, false, not, Option, none, some, List, [], ◌∷◌, ◌++◌, map,
  ◌==◌, if◌then◌else◌, ltb, any,
}
use secure_claw.Base.Dict
use secure_claw.Base.Dict.{Dict}
use secure_claw.Base.Text.{slice_to, slice_from, length_of, join}
use secure_claw.Sanitizer.{
  Severity, low, medium, high, critical, order, InjectionMatch, InjectionScanResult, Runtime,
}

pub record InjectionPattern : Type 0 where
  pub id : String
  pub severity : Severity

abbrev pattern_of : Severity → String → InjectionPattern
pattern_of severity id = record { id = id; severity = severity }

abbrev pub injection_patterns : List InjectionPattern
injection_patterns =
    pattern_of critical "IGNORE_INSTRUCTIONS"
    ∷ pattern_of critical "NEW_INSTRUCTIONS"
    ∷ pattern_of critical "SYSTEM_OVERRIDE"
    ∷ pattern_of critical "ROLE_HIJACK"
    ∷ pattern_of critical "DEVELOPER_MODE"
    ∷ pattern_of critical "DAN_JAILBREAK"
    ∷ pattern_of high "SPECIAL_TOKENS"
    ∷ pattern_of high "HIDDEN_UNICODE"
    ∷ pattern_of high "REVEAL_SYSTEM_PROMPT"
    ∷ pattern_of high "DISABLE_SAFETY"
    ∷ pattern_of medium "SENSITIVE_PATH_ACCESS"
    ∷ pattern_of medium "EXFIL_WEBHOOK"
    ∷ pattern_of medium "URGENCY_INJECTION"
    ∷ pattern_of low "HTML_COMMENT_INSTRUCTIONS"
    ∷ pattern_of low "LARGE_BASE64"
    ∷ []

-- The `reduce` over the severities of the matches, from "low".
unfoldable pub highest_from : Severity → List InjectionMatch → Severity
highest_from highest [] = highest
highest_from highest (m ∷ ms) =
    highest_from (if ltb (order highest) (order m.severity) then m.severity else highest) ms

-- `computeHighestSeverity`
unfoldable pub highest_severity : List InjectionMatch → Option Severity
unfolding highest_from
highest_severity [] = none
highest_severity (m ∷ ms) = some (highest_from low (m ∷ ms))

-- what `scanForInjection` returns for the matches that it found
unfoldable pub scan_result : List InjectionMatch → InjectionScanResult
unfolding highest_severity
scan_result [] = record { is_suspicious = false; highest_severity = none; matches = [] }
scan_result (m ∷ ms) = record {
  is_suspicious = true;
  highest_severity = highest_severity (m ∷ ms);
  matches = m ∷ ms;
}

module _ (rt : Runtime) where
  open rt use {
    exec_pattern, base64_segments, base64_text, has_printable, decode_uri, nfkd, strip_marks,
  }

  -- `Math.max(0, …)` and the end of the text are what `slice` and subtraction on ℕ stop at
  excerpt_at : String → ℕ → ℕ → String
  excerpt_at content index size =
      slice_to 200 (slice_to (index + size + 20 - (index - 20)) (slice_from (index - 20) content))

  -- the loop over the patterns
  unfoldable pub scan_patterns : List InjectionPattern → String → List InjectionMatch
  unfolding excerpt_at
  scan_patterns [] content = []
  scan_patterns (p ∷ ps) content = elim (exec_pattern p.id content) [
    | none ↦ scan_patterns ps content
    | some m ↦
        record {
          pattern_id = p.id;
          severity = p.severity;
          excerpt = excerpt_at content m.index m.size;
        }
        ∷ scan_patterns ps content
  ]

  unfoldable pub scan_for_injection : String → InjectionScanResult
  scan_for_injection content = scan_result (scan_patterns injection_patterns content)

  -- the decodable segments of the loop over the matches of the segment pattern
  decoded_segments : List String → List String
  decoded_segments [] = []
  decoded_segments (segment ∷ rest) =
      let others = decoded_segments rest in
      let decoded = base64_text segment in
      if has_printable decoded then decoded ∷ others else others

  unfoldable pub try_decode_base64_segments : String → Option String
  unfolding decoded_segments
  try_decode_base64_segments content = elim (decoded_segments (base64_segments content)) [
    | [] ↦ none
    | d ∷ ds ↦ some (join " " (d ∷ ds))
  ]

  if_changed : String → String → Option String
  if_changed content decoded = if decoded == content then none else some decoded

  unfoldable pub try_decode_url : String → Option String
  unfolding if_changed
  try_decode_url content = elim (decode_uri content) [
    | none ↦ none
    | some decoded ↦ if_changed content decoded
  ]

  unfoldable pub try_normalize_unicode : String → Option String
  unfolding if_changed
  try_normalize_unicode content = if_changed content (strip_marks (nfkd content))

pub data DecodeLayer : Type 0 where
  base64 url_encoded unicode_normalized : DecodeLayer

abbrev pub layer_eq : DecodeLayer → DecodeLayer → Bool
layer_eq base64 base64 = true
layer_eq url_encoded url_encoded = true
layer_eq unicode_normalized unicode_normalized = true
layer_eq _ _ = false

pub record DecodedLayerScan : Type 0 where
  pub layer : DecodeLayer
  pub decoded_excerpt : String
  pub matches : List InjectionMatch

pub record MultiLayerScanResult : Type 0 where
  pub original : InjectionScanResult
  pub decoded_layers : List DecodedLayerScan
  pub all_matches : List InjectionMatch
  pub is_suspicious : Bool
  pub highest_severity : Option Severity

-- one round of the inner loop of `mergeMatches`
unfoldable pub merge_one : Dict InjectionMatch → InjectionMatch → Dict InjectionMatch
merge_one by_id m = elim (Dict.get by_id m.pattern_id) [
  | none ↦ Dict.set by_id m.pattern_id m
  | some existing ↦
      if ltb (order existing.severity) (order m.severity)
      then Dict.set by_id m.pattern_id m
      else by_id
]

unfoldable pub merge_list : Dict InjectionMatch → List InjectionMatch → Dict InjectionMatch
merge_list by_id [] = by_id
merge_list by_id (m ∷ ms) = merge_list (merge_one by_id m) ms

merge_lists : Dict InjectionMatch → List (List InjectionMatch) → Dict InjectionMatch
merge_lists by_id [] = by_id
merge_lists by_id (l ∷ ls) = merge_lists (merge_list by_id l) ls

unfoldable pub merge_matches : List (List InjectionMatch) → List InjectionMatch
unfolding merge_lists merge_list merge_one
merge_matches lists = Dict.values (merge_lists [] lists)

module _ (rt : Runtime) where
  -- one `if (layers.includes(…))` of `scanWithDecodedLayers`
  scan_layer :
      DecodeLayer → (String → Option String) → String → List DecodeLayer → List DecodedLayerScan
  scan_layer layer decode content layers =
      if any (layer_eq layer) layers
      then (elim (decode content) [
        | none ↦ []
        | some decoded ↦
            record {
              layer = layer;
              decoded_excerpt = slice_to 120 decoded;
              matches = (scan_for_injection rt decoded).matches;
            }
            ∷ []
      ])
      else []

  unfoldable pub scan_with_decoded_layers : String → List DecodeLayer → MultiLayerScanResult
  unfolding scan_layer
  scan_with_decoded_layers content layers =
      let original = scan_for_injection rt content in
      let decoded_layers =
        scan_layer base64 (try_decode_base64_segments rt) content layers
        ++ (scan_layer url_encoded (try_decode_url rt) content layers
            ++ scan_layer unicode_normalized (try_normalize_unicode rt) content layers) in
      let all_matches = merge_matches (original.matches ∷ map (λ l. l.matches) decoded_layers) in
      record {
        original = original;
        decoded_layers = decoded_layers;
        all_matches = all_matches;
        is_suspicious = elim all_matches [ [] ↦ false | _ ∷ _ ↦ true ];
        highest_severity = highest_severity all_matches;
      }
