-- ===== src/Agent/Run/Gate.antt =====
-- What a run does when it rejects the user's message, when it rejects one, and that it ends.
use secure_claw.Base.{
  ℕ, suc, ◌≤◌, ◌<◌, ◌≡◌, refl, ◌∙◌, Bool, true, false, not, ◌&&◌, ◌||◌, Option, none, some, List,
  [], ◌∷◌, arith, any, non_empty, String, Bool-cases, inl, inr,
}
use secure_claw.Sanitizer.{is_critical, InjectionScanResult}
use secure_claw.Sanitizer.Service.{
  SanitizerService, SanitizeUserInputResult, Outcome, returns, throws, sanitize_user_input,
}
use secure_claw.Session.Context.{SessionContext}
use secure_claw.Agent.{Effect, is_ask, is_run}
use secure_claw.Agent.Loop.{LoopState, Ended, finished, out_of_fuel, threw}
use secure_claw.Agent.Loop.Bounds.{ran_out, Within, loop-Within}
use secure_claw.Agent.Entry.{
  RunEnv, CostSummary, QuotaStatus, team_of, check_injection, check_cost_cap, check_quota, or_next,
  gate, max_turns,
}
use secure_claw.Agent.Run.{
  RunEnd, rejected, ended, start, admit, after_loop, record_end, loop_start, run,
}

abbrev pub is_exceeded : Outcome CostSummary → Bool
is_exceeded (throws message) = false
is_exceeded (returns summary) = summary.cap_exceeded

abbrev pub quota_exceeded : Outcome QuotaStatus → Bool
quota_exceeded (throws message) = false
quota_exceeded (returns quota_status) = quota_status.exceeded

module _ (env : RunEnv) where
  abbrev is_attack : InjectionScanResult → Bool
  is_attack scan = is_critical scan.highest_severity && scan.is_suspicious

  -- Nothing is asked of the model and nothing is run, and the session's end is reported.
  abbrev pub Quiet : List Effect → Type 0
  Quiet es = (any is_ask es ≡ false) × (any is_run es ≡ false)

  abbrev Checks : Bool → List Effect → Type 0
  Checks b es = (non_empty es ≡ b) × Quiet es

  check_injection-Checks :
      (content : String) (scan : InjectionScanResult)
      → Checks (is_attack scan) (check_injection env content scan)
  unfolding check_injection
  check_injection-Checks content scan = ground arith

  check_cost_cap-Checks : (o : Outcome CostSummary) → Checks (is_exceeded o) (check_cost_cap env o)
  unfolding check_cost_cap
  check_cost_cap-Checks (throws message) = (refl, (refl, refl))
  check_cost_cap-Checks (returns summary) = ground arith

  check_quota-Checks :
      (team_id : String) (o : Outcome QuotaStatus)
      → Checks (quota_exceeded o) (check_quota env team_id o)
  unfolding check_quota
  check_quota-Checks team_id (throws message) = (refl, (refl, refl))
  check_quota-Checks team_id (returns quota_status) = ground arith

  or_next-Checks :
      (b c : Bool) (es fs : List Effect)
      → Checks b es
      → Checks c fs
      → Checks (b || c) (or_next env es fs)
  or_next-Checks b c [] fs h k = ground arith
  or_next-Checks b c (e ∷ es) fs h k = ground arith

  abbrev pub is_barred : SessionContext → InjectionScanResult → Bool
  is_barred ctx scan =
      is_attack scan
      || (is_exceeded (env.get_cost_summary ctx.user_id)
          || quota_exceeded (env.check_quota_exceeded (team_of ctx.user_id)))

  gate-Checks :
      (ctx : SessionContext) (content : String) (scan : InjectionScanResult)
      → Checks (is_barred ctx scan) (gate env ctx content scan)
  unfolding gate
  gate-Checks ctx content scan = or_next-Checks _ _ _ _ (check_injection-Checks content scan) (
      or_next-Checks _ _ _ _ (check_cost_cap-Checks (env.get_cost_summary ctx.user_id))
        (check_quota-Checks (team_of ctx.user_id) _))

  abbrev pub not_rejected : RunEnd → Bool
  not_rejected rejected = false
  not_rejected (ended _) = true

  abbrev pub comes_to_end : RunEnd → Bool
  comes_to_end rejected = true
  comes_to_end (ended e) = not (ran_out env.turn e)

  abbrev Refused : SessionContext → LoopState × RunEnd → Type 0
  Refused ctx r = (r.1 ≡ rejected) × (r.0.ctx ≡ ctx) × Quiet r.0.effects

  admit-Refused :
      (fuel : ℕ) (ctx : SessionContext) (content : String)
      (sanitized : SanitizerService × SanitizeUserInputResult) (es : List Effect)
      → non_empty es ≡ true
      → Quiet es
      → Refused ctx (admit env fuel ctx content sanitized es)
  unfolding admit
  admit-Refused fuel ctx content sanitized [] h quiet = absurd (ground arith)
  admit-Refused fuel ctx content (s, result) (e ∷ es) h quiet = (refl, refl, quiet)

  after_loop-admitted : (r : LoopState × Ended) → not_rejected (after_loop env r).1 ≡ true
  unfolding after_loop
  after_loop-admitted (st, finished) = refl
  after_loop-admitted (st, out_of_fuel) = refl
  after_loop-admitted (st, threw message) = refl

  start-admitted :
      (fuel : ℕ) (ctx : SessionContext) (s : SanitizerService) (content safe : String)
      (loaded : SessionContext × Option String)
      → not_rejected (start env fuel ctx s content safe loaded).1 ≡ true
  unfolding start
  start-admitted fuel ctx s content safe (loaded, some message) = refl
  start-admitted fuel ctx s content safe (loaded, none) = after_loop-admitted _

  admit-admitted :
      (fuel : ℕ) (ctx : SessionContext) (content : String)
      (sanitized : SanitizerService × SanitizeUserInputResult) (es : List Effect)
      → non_empty es ≡ false
      → not_rejected (admit env fuel ctx content sanitized es).1 ≡ true
  unfolding admit
  admit-admitted fuel ctx content sanitized (e ∷ es) h = absurd (ground arith)
  admit-admitted fuel ctx content (s, result) [] h = start-admitted fuel ctx s content _ _

  abbrev pub scan_of : SessionContext → String → SanitizerService → InjectionScanResult
  scan_of ctx content s =
      (sanitize_user_input env.runtime content ctx.session_id s).1.injection_scan

  -- A run goes past the gates exactly if the user's message is no critical injection, and neither
  -- the daily cost cap nor the team's quota is exceeded by the audit service's answer; a service
  -- that cannot be reached blocks nothing.
  pub run_is_gated :
      (fuel : ℕ) (ctx : SessionContext) (content : String) (s : SanitizerService)
      → not_rejected (run env fuel ctx content s).1
        ≡ not (
            is_critical (scan_of ctx content s).highest_severity
              && (scan_of ctx content s).is_suspicious
            || (is_exceeded (env.get_cost_summary ctx.user_id)
                || quota_exceeded (env.check_quota_exceeded (team_of ctx.user_id))))
  unfolding run
  run_is_gated fuel ctx content s =
      let sanitized = sanitize_user_input env.runtime content ctx.session_id s in
      let gated = gate-Checks ctx content (scan_of ctx content s) in
      elim (Bool-cases (is_barred ctx (scan_of ctx content s))) [
        | inl barred ↦
            let refused = admit-Refused fuel ctx content sanitized _ (gated.0 ∙ barred) gated.1 in
            rw (refused.0, barred) refl
        | inr passed ↦ rw passed (admit-admitted fuel ctx content sanitized _ (gated.0 ∙ passed))
      ]

  -- A run that is rejected, because the message is a critical injection or the cost cap or the
  -- quota is exceeded, leaves the session's context as it was, asks the model nothing and runs
  -- nothing.
  pub rejected_run_is_quiet :
      (fuel : ℕ) (ctx : SessionContext) (content : String) (s : SanitizerService)
      → (is_critical (scan_of ctx content s).highest_severity
            && (scan_of ctx content s).is_suspicious
          || (is_exceeded (env.get_cost_summary ctx.user_id)
              || quota_exceeded (env.check_quota_exceeded (team_of ctx.user_id))))
        ≡ true
      → ((run env fuel ctx content s).1 ≡ rejected)
        × ((run env fuel ctx content s).0.ctx ≡ ctx)
        × (any is_ask (run env fuel ctx content s).0.effects ≡ false)
        × (any is_run (run env fuel ctx content s).0.effects ≡ false)
  unfolding run
  rejected_run_is_quiet fuel ctx content s barred =
      let gated = gate-Checks ctx content (scan_of ctx content s) in
      let refused =
        admit-Refused fuel ctx content (sanitize_user_input env.runtime content ctx.session_id s) _
          (gated.0 ∙ barred) gated.1 in
      (refused.0, refused.1, refused.2.0, refused.2.1)

  max_turns_in_range : (1 ≤ max_turns env) × (max_turns env ≤ 500)
  unfolding max_turns
  max_turns_in_range = ground arith

  abbrev Ends : LoopState × RunEnd → Type 0
  Ends r = (comes_to_end r.1 ≡ true) × (r.0.turn_count ≤ suc (max_turns env))

  after_loop-Ends :
      (r : LoopState × Ended) → Within env.turn (max_turns env) r → Ends (after_loop env r)
  unfolding after_loop record_end
  after_loop-Ends (st, finished) h = (refl, h.1)
  after_loop-Ends (st, out_of_fuel) h = absurd (ground arith)
  after_loop-Ends (st, threw message) h = (refl, h.1)

  start-Ends :
      (fuel : ℕ) (ctx : SessionContext) (s : SanitizerService) (content safe : String)
      (loaded : SessionContext × Option String)
      → max_turns env < fuel
      → Ends (start env fuel ctx s content safe loaded)
  unfolding start loop_start
  start-Ends fuel ctx s content safe (loaded, some message) h = (refl, omega arith)
  start-Ends fuel ctx s content safe (loaded, none) h = after_loop-Ends _ (
      loop-Within env.turn (max_turns env) fuel
        (loop_start env ctx loaded s content safe (env.turn.now 0)) (omega arith) (omega arith))

  admit-Ends :
      (fuel : ℕ) (ctx : SessionContext) (content : String)
      (sanitized : SanitizerService × SanitizeUserInputResult) (es : List Effect)
      → max_turns env < fuel
      → Ends (admit env fuel ctx content sanitized es)
  unfolding admit
  admit-Ends fuel ctx content (s, result) (e ∷ es) h = (refl, omega arith)
  admit-Ends fuel ctx content (s, result) [] h = start-Ends fuel ctx s content _ _ h

  -- Every run comes to an end, whatever the model answers, with fuel for one more turn than the
  -- cap allows: it is rejected, it throws, or the loop finishes. It counts at most one turn beyond
  -- the cap, which is the one that the cap stops, and the cap lies between 1 and 500, whatever the
  -- environment variable says.
  pub run_ends :
      (fuel : ℕ) (ctx : SessionContext) (content : String) (s : SanitizerService)
      → max_turns env < fuel
      → (comes_to_end (run env fuel ctx content s).1 ≡ true)
        × ((run env fuel ctx content s).0.turn_count ≤ suc (max_turns env))
        × (1 ≤ max_turns env)
        × (max_turns env ≤ 500)
  unfolding run
  run_ends fuel ctx content s h =
      let ends =
        admit-Ends fuel ctx content (sanitize_user_input env.runtime content ctx.session_id s) _
          h in
      (ends.0, ends.1, max_turns_in_range.0, max_turns_in_range.1)
