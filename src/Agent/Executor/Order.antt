-- ===== src/Agent/Executor/Order.antt =====
-- Which call a result belongs to, and that the results come in the order of the calls.
use secure_claw.Base.{
  String, ◌≡◌, refl, not, Option, none, some, List, [], ◌∷◌, arith, ◌==◌, if_cases, map,
}
use secure_claw.Base.Json.{Json}
use secure_claw.Sanitizer.Service.{
  SanitizerService, SanitizeExternalContentResult, Outcome, returns, throws,
}
use secure_claw.Session.Context.{SessionContext}
use secure_claw.Agent.{Effect}
use secure_claw.Agent.Executor.{
  Env, PendingToolCall, ToolCallResult, UrlCheck, is_null, url_of, denied_call,
}
use secure_claw.Agent.Executor.Single.{
  Ran, finish, conclude, run_checked, check_then_run, blocked_call, execute_single, execute_all,
  gather,
}

module _ (env : Env) (ctx : SessionContext) where
  abbrev pub Names : PendingToolCall → ToolCallResult → Type 0
  Names pc r = (r.call_id ≡ pc.call_id) × (r.tool_id ≡ pc.tool_id)

  abbrev Answers :
      PendingToolCall → SanitizerService × List Effect × Outcome ToolCallResult → Type 0
  Answers pc x = (r : ToolCallResult) → x.2 ≡ returns r → Names pc r

  Answers-conclude :
      (pc : PendingToolCall) (call : Effect) (ran : Ran) (s : SanitizerService)
      (o : Outcome SanitizeExternalContentResult)
      → Answers pc (conclude env ctx pc call ran s o)
  unfolding conclude finish
  Answers-conclude pc call ran s (throws message) r h = absurd (ground arith)
  Answers-conclude pc call ran s (returns scan) r h = (ground arith, ground arith)

  Answers-run_checked :
      (pc : PendingToolCall) (input : String) (s : SanitizerService)
      → Answers pc (run_checked env ctx pc input s)
  unfolding run_checked
  Answers-run_checked pc input s = Answers-conclude pc _ _ _ _

  Answers-blocked_call :
      (pc : PendingToolCall) (check : UrlCheck) (s : SanitizerService)
      → Answers pc (s, (blocked_call env ctx pc check).0, returns (blocked_call env ctx pc check).1)
  unfolding blocked_call
  Answers-blocked_call pc check s r h = (ground arith, ground arith)

  Answers-check_then_run :
      (pc : PendingToolCall) (o : Option Json) (input : String) (s : SanitizerService)
      → Answers pc (check_then_run env ctx pc o input s)
  unfolding check_then_run
  Answers-check_then_run pc none input s = λ r h. absurd (ground arith)
  Answers-check_then_run pc (some json) input s =
      if_cases (Answers pc) (is_null json) (λ unread r h. absurd (ground arith))
        (λ read.
          if_cases (Answers pc) (env.check_url (url_of env json)).safe
            (λ safe. Answers-run_checked pc input s) (λ unsafe. Answers-blocked_call pc _ s))

  Answers-denied_call :
      (pc : PendingToolCall) (s : SanitizerService)
      → Answers pc (s, (denied_call env pc).0, returns (denied_call env pc).1)
  unfolding denied_call
  Answers-denied_call pc s r h = (ground arith, ground arith)

  pub Answers-execute_single :
      (pc : PendingToolCall) (s : SanitizerService) → Answers pc (execute_single env ctx pc s)
  unfolding execute_single
  Answers-execute_single pc s =
      if_cases (Answers pc) (not pc.approved) (λ refused. Answers-denied_call pc s)
        (λ approved.
          if_cases (Answers pc) (pc.tool_id == "http_request")
            (λ http. Answers-check_then_run pc _ _ s) (λ other. Answers-run_checked pc _ s))

  both_return :
      (o : Outcome ToolCallResult) (os : Outcome (List ToolCallResult)) (rs : List ToolCallResult)
      → gather o os ≡ returns rs
      → (r : ToolCallResult) × (rest : List ToolCallResult) × (o ≡ returns r)
        × (os ≡ returns rest)
        × (rs ≡ r ∷ rest)
  unfolding gather
  both_return (throws m) os rs h = absurd (ground arith)
  both_return (returns r) (throws m) rs h = absurd (ground arith)
  both_return (returns r) (returns rest) rs h = (r, rest, refl, refl, ground arith)

  -- If the parallel execution of a turn's calls comes to an end without an exception, it has one
  -- result for each call, in the order of the calls, under the call's own id and tool.
  pub execute_all_in_order :
      (pcs : List PendingToolCall) (s : SanitizerService) (rs : List ToolCallResult)
      → (execute_all env ctx pcs s).2 ≡ returns rs
      → (map (λ r. r.call_id) rs ≡ map (λ pc. pc.call_id) pcs)
        × (map (λ r. r.tool_id) rs ≡ map (λ pc. pc.tool_id) pcs)
  unfolding execute_all
  execute_all_in_order [] s rs h = (ground arith, ground arith)
  execute_all_in_order (pc ∷ pcs) s rs h =
      let (r, rest, first, others, e) = both_return _ _ rs h in
      let named = Answers-execute_single pc s r first in
      let ordered = execute_all_in_order pcs (execute_single env ctx pc s).0 rest others in
      (rw e (cc (named.0, ordered.0)), rw e (cc (named.1, ordered.1)))
