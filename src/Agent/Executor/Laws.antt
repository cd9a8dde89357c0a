-- ===== src/Agent/Executor/Laws.antt =====
-- What a tool call may run, what is on record before it does, and what the model gets to see.
use secure_claw.Base.{
  String, ◌≡◌, refl, true, false, not, Option, none, some, List, ◌∷◌, arith, ◌==◌, any, if_cases,
  inl, inr, ◌⊎◌,
}
use secure_claw.Base.Json.{Json}
use secure_claw.Sanitizer.Service.{
  SanitizerService, SanitizeExternalContentResult, Outcome, returns, throws,
}
use secure_claw.Session.Context.{SessionContext}
use secure_claw.Agent.{Effect, is_run, is_audit}
use secure_claw.Agent.Executor.{
  Env, PendingToolCall, ToolCallResult, UrlCheck, is_null, prepare_input, url_of, denied_call,
}
use secure_claw.Agent.Executor.Single.{
  Target, blocked_call, run_target, is_injection, report_injection, finish, conclude, call_event,
  run_checked, check_then_run, execute_single,
}

module _ (env : Env) (ctx : SessionContext) (pc : PendingToolCall) where
  -- the URL that the call asks for is safe, if it is a call of `http_request`
  abbrev pub UrlIsSafe : Type 0
  UrlIsSafe =
      (pc.tool_id == "http_request") ≡ true
      → (json : Json) × (env.codec.parse (prepare_input env pc) ≡ some json)
        × ((env.check_url (url_of env json)).safe ≡ true)

  -- The effects of a call: nothing is run, or first the TOOL_CALL event, then one run, and no
  -- other; and a run happens only for an approved call whose URL is safe.
  abbrev pub RunsOnRecord : List Effect → Type 0
  RunsOnRecord es =
      (any is_run es ≡ false)
      ⊎ ((call : Effect) × (run : Effect) × (rest : List Effect) × (es ≡ call ∷ run ∷ rest)
          × (is_audit "TOOL_CALL" call ≡ true)
          × (is_run run ≡ true)
          × (any is_run rest ≡ false)
          × (pc.approved ≡ true)
          × UrlIsSafe)

  no_run_in_report :
      (text : String) (scan : SanitizeExternalContentResult)
      → any is_run (report_injection env ctx pc text scan) ≡ false
  unfolding report_injection
  no_run_in_report text scan = ground arith

  request_is_run : (t : Target) → is_run (run_target env ctx pc t).request ≡ true
  unfolding run_target
  request_is_run (Target.skill client request route) = ground arith
  request_is_run (Target.sandbox request) = ground arith

  logged_is_no_run : (t : Target) → is_run (run_target env ctx pc t).logged ≡ false
  unfolding run_target
  logged_is_no_run (Target.skill client request route) = ground arith
  logged_is_no_run (Target.sandbox request) = ground arith

  conclude-RunsOnRecord :
      (t : Target) (s : SanitizerService) (o : Outcome SanitizeExternalContentResult)
      → pc.approved ≡ true
      → UrlIsSafe
      → RunsOnRecord (conclude env ctx pc (call_event env ctx pc) (run_target env ctx pc t) s o).1
  unfolding conclude finish
  conclude-RunsOnRecord t s (throws message) approved safe =
      inr (_, _, _, refl, refl, request_is_run t, rw (logged_is_no_run t), approved, safe)
  conclude-RunsOnRecord t s (returns scan) approved safe =
      let quiet = no_run_in_report (run_target env ctx pc t).text scan in
      inr (
        _,
        _,
        _,
        refl,
        refl,
        request_is_run t,
        rw (logged_is_no_run t) (
            if_cases (λ es. any is_run es ≡ false) (is_injection env ctx pc scan) (λ h. quiet)
              (λ h. refl)),
        approved,
        safe,
      )

  abbrev OnRecord : SanitizerService × List Effect × Outcome ToolCallResult → Type 0
  OnRecord r = RunsOnRecord r.1

  run_checked-RunsOnRecord :
      (input_json : String) (s : SanitizerService)
      → pc.approved ≡ true
      → UrlIsSafe
      → OnRecord (run_checked env ctx pc input_json s)
  unfolding run_checked
  run_checked-RunsOnRecord input_json s = conclude-RunsOnRecord _ _ _

  no_run_if_blocked : (check : UrlCheck) → any is_run (blocked_call env ctx pc check).0 ≡ false
  unfolding blocked_call
  no_run_if_blocked check = ground arith

  check_then_run-RunsOnRecord :
      (o : Option Json) (s : SanitizerService)
      → env.codec.parse (prepare_input env pc) ≡ o
      → pc.approved ≡ true
      → OnRecord (check_then_run env ctx pc o (prepare_input env pc) s)
  unfolding check_then_run
  check_then_run-RunsOnRecord none s parsed approved = inl refl
  check_then_run-RunsOnRecord (some json) s parsed approved =
      if_cases OnRecord (is_null json) (λ unread. inl refl)
        (λ read.
          if_cases OnRecord (env.check_url (url_of env json)).safe
            (λ safe. run_checked-RunsOnRecord _ s approved (λ h. (json, parsed, safe)))
            (λ unsafe. inl (no_run_if_blocked _)))

  -- A call starts at most one run, in the sandbox or of a skill. If it does, the call is approved,
  -- its URL has passed the check where it is a call of `http_request`, and the TOOL_CALL event was
  -- written to the audit log before it.
  pub execute_single-RunsOnRecord :
      (s : SanitizerService) → RunsOnRecord (execute_single env ctx pc s).1
  unfolding execute_single denied_call
  execute_single-RunsOnRecord s =
      if_cases OnRecord (not pc.approved) (λ refused. inl refl)
        (λ kept.
          let approved : pc.approved ≡ true = ground arith in
          if_cases OnRecord (pc.tool_id == "http_request")
            (λ http. check_then_run-RunsOnRecord _ s refl approved)
            (λ other. run_checked-RunsOnRecord _ s approved (λ h. cc (h, other))))
