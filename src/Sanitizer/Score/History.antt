-- ===== src/Sanitizer/Score/History.antt =====
-- The running score, against the history of a tracker: a list of everything that happened to it.
use secure_claw.Base.{
  ℕ, ◌+◌, String, ◌≡◌, refl, ◌↔◌, true, List, [], ◌∷◌, arith, ◌==◌, if◌then◌else◌, or_else, sum_of,
  eq_iff, ◌≤◌,
}
use secure_claw.Base.Dict
use secure_claw.Sanitizer.{InjectionMatch}
use secure_claw.Sanitizer.Score.{
  Sensitivity, TurnScoreTracker, score, threshold_of, get_score, total, add_matches, reset_session,
}

pub data Event : Type 0 where
  scanned : String → List InjectionMatch → Event
  reset : String → Event

unfoldable pub apply : TurnScoreTracker → Event → TurnScoreTracker
apply t (scanned session ms) = (add_matches session ms t).0
apply t (reset session) = reset_session session t

unfoldable pub run : TurnScoreTracker → List Event → TurnScoreTracker
unfolding apply
run t [] = t
run t (e ∷ es) = run (apply t e) es

-- The weight of every match of the session since its last reset, added to `sum`.
unfoldable pub suspicion : String → ℕ → List Event → ℕ
suspicion session sum [] = sum
suspicion session sum (scanned s ms ∷ es) =
    suspicion session (if s == session then sum + sum_of (λ m. score m.severity) ms else sum) es
suspicion session sum (reset s ∷ es) = suspicion session (if s == session then 0 else sum) es

total-sum_of :
    (n : ℕ) (ms : List InjectionMatch) → total n ms ≡ n + sum_of (λ m. score m.severity) ms
unfolding total
total-sum_of n [] = omega arith
total-sum_of n (m ∷ ms) = omega (arith, total-sum_of (n + score m.severity) ms)

get_score-apply-scanned :
    (t : TurnScoreTracker) (s session : String) (ms : List InjectionMatch)
    → get_score session (apply t (scanned s ms)) ≡ (
        if s == session
        then get_score session t + sum_of (λ m. score m.severity) ms
        else get_score session t)
unfolding get_score apply add_matches
get_score-apply-scanned t s session ms = ground (
  arith,
  Dict.get-set t.scores s session (or_else (Dict.get t.scores s) 0 + total 0 ms),
  total-sum_of 0 ms,
  eq_iff s session,
)

get_score-apply-reset :
    (t : TurnScoreTracker) (s session : String)
    → get_score session (apply t (reset s)) ≡ (if s == session then 0 else get_score session t)
unfolding get_score apply reset_session
get_score-apply-reset t s session = ground (arith, Dict.get-delete t.scores s session)

get_score-run :
    (t : TurnScoreTracker) (es : List Event) (session : String)
    → get_score session (run t es) ≡ suspicion session (get_score session t) es
unfolding run suspicion
get_score-run t [] session = refl
get_score-run t (scanned s ms ∷ es) session =
    rw (← get_score-apply-scanned t s session ms)
      (get_score-run (apply t (scanned s ms)) es session)
get_score-run t (reset s ∷ es) session =
    rw (← get_score-apply-reset t s session) (get_score-run (apply t (reset s)) es session)

sensitivity-run : (t : TurnScoreTracker) (es : List Event) → (run t es).sensitivity ≡ t.sensitivity
unfolding run apply add_matches reset_session
sensitivity-run t [] = refl
sensitivity-run t (scanned s ms ∷ es) = sensitivity-run (apply t (scanned s ms)) es
sensitivity-run t (reset s ∷ es) = sensitivity-run (apply t (reset s)) es

abbrev pub new_tracker : Sensitivity → TurnScoreTracker
new_tracker sensitivity = record { scores = []; sensitivity = sensitivity }

-- After any sequence of scans and resets of any sessions, a session's score is the weight of all
-- its own matches since its last reset, and the next scan reports that the threshold is exceeded
-- exactly when that weight with the new matches reaches the threshold of the sensitivity.
pub score_is_history :
    (level : Sensitivity) (es : List Event) (session : String) (ms : List InjectionMatch)
    → (get_score session (run (new_tracker level) es) ≡ suspicion session 0 es)
      × (((add_matches session ms (run (new_tracker level) es)).1.threshold_exceeded ≡ true)
          ↔ (threshold_of level ≤ suspicion session 0 es + sum_of (λ m. score m.severity) ms))
unfolding add_matches get_score Dict.get
score_is_history level es session ms =
    let t = run (new_tracker level) es in
    let held = get_score-run (new_tracker level) es session in
    let same = sensitivity-run (new_tracker level) es in
    let added = total-sum_of 0 ms in
    (held, (ground (arith, held, same, added), ground (arith, held, same, added)))
