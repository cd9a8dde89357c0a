-- ===== src/Sanitizer/Score.antt =====
-- packages/input-sanitizer/src/session/turn-score-tracker.ts.
pub mod History
use secure_claw.Base.{ℕ, ◌+◌, String, Bool, Option, none, some, List, [], ◌∷◌, leb, or_else}
use secure_claw.Base.Dict
use secure_claw.Base.Dict.{Dict}
use secure_claw.Sanitizer.{Severity, InjectionMatch}

pub data Sensitivity : Type 0 where
  low medium high : Sensitivity

-- `SEVERITY_SCORES`
abbrev pub score : Severity → ℕ
score Severity.low = 1
score Severity.medium = 2
score Severity.high = 5
score Severity.critical = 10

-- `SENSITIVITY_THRESHOLDS`
abbrev pub threshold_of : Sensitivity → ℕ
threshold_of Sensitivity.low = 25
threshold_of Sensitivity.medium = 15
threshold_of Sensitivity.high = 8

-- `SENSITIVITY_MIN_SEVERITY`
abbrev pub min_severity : Sensitivity → ℕ
min_severity Sensitivity.low = score Severity.critical
min_severity Sensitivity.medium = score Severity.high
min_severity Sensitivity.high = score Severity.low

pub record TurnScoreResult : Type 0 where
  pub previous_score : ℕ
  pub added_score : ℕ
  pub current_score : ℕ
  pub threshold : ℕ
  pub threshold_exceeded : Bool

pub record TurnScoreTracker : Type 0 where
  pub scores : Dict ℕ
  pub sensitivity : Sensitivity

unfoldable pub get_score : String → TurnScoreTracker → ℕ
get_score session_id t = or_else (Dict.get t.scores session_id) 0

-- the `reduce` of `addMatches`
unfoldable pub total : ℕ → List InjectionMatch → ℕ
total sum [] = sum
total sum (m ∷ ms) = total (sum + score m.severity) ms

unfoldable pub add_matches :
    String → List InjectionMatch → TurnScoreTracker → TurnScoreTracker × TurnScoreResult
unfolding total
add_matches session_id matches t =
    let previous_score = or_else (Dict.get t.scores session_id) 0 in
    let added_score = total 0 matches in
    let current_score = previous_score + added_score in
    let threshold = threshold_of t.sensitivity in
    (
      record t { scores = Dict.set t.scores session_id current_score },
      record {
        previous_score = previous_score;
        added_score = added_score;
        current_score = current_score;
        threshold = threshold;
        threshold_exceeded = leb threshold current_score;
      },
    )

unfoldable pub reset_session : String → TurnScoreTracker → TurnScoreTracker
reset_session session_id t = record t { scores = Dict.delete t.scores session_id }

unfoldable pub is_severity_suspicious : Sensitivity → Severity → Bool
is_severity_suspicious sensitivity severity = leb (min_severity sensitivity) (score severity)
