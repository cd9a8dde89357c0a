-- ===== src/Agent/Run.antt =====
-- packages/agent-runtime/src/llm/agent-loop.ts: `run`, one message of the user through the agent
-- loop, and what is recorded at its end.
pub mod Gate
use Prim.Native.Char.{Char, code}
use secure_claw.Base.{
  ℕ, zero, suc, ◌+◌, String, ◌<>◌, Bool, true, false, not, ◌&&◌, Option, none, some, List, [], ◌∷◌,
  ◌++◌, map, ◌==◌, if◌then◌else◌, nat_eq, ltb, leb, or_else, first, length, non_empty,
}
use secure_claw.Base.Text.{slice_to, length_of}
use secure_claw.Base.Json.{num, str}
use secure_claw.Sanitizer.{is_critical, Runtime, InjectionScanResult}
use secure_claw.Sanitizer.Service.{
  SanitizerService, SanitizeUserInputResult, Outcome, returns, throws, sanitize_user_input,
}
use secure_claw.Session.Context.{
  SessionContext, Status, LlmMessage, ToolCall, HarnessPatchPrompt, add_user_message, record_usage,
}
use secure_claw.Agent.{
  AuditSeverity, Chunk, Effect, store_session, finalize_session, append_message, extract_lessons,
  yields, memory, record_cost, session_end,
}
use secure_claw.Agent.Executor.{log, fire}
use secure_claw.Agent.Turn.{TurnEnv}
use secure_claw.Agent.Loop.{LoopState, Ended, finished, out_of_fuel, threw, loop}
use secure_claw.Agent.Entry.{RunEnv, load_memory, max_turns, gate}

-- how a run comes to an end
pub data RunEnd : Type 0 where
  rejected : RunEnd
  ended : Ended → RunEnd

module _ (env : RunEnv) where
  abbrev remember : Effect → List Effect
  remember e = if env.turn.has_memory then e ∷ [] else []

  abbrev stored : SessionContext → List Effect
  stored ctx = if non_empty ctx.messages then [] else remember (memory store_session)

  -- the state in which the loop starts
  unfoldable pub loop_start :
      SessionContext → SessionContext → SanitizerService → String → String → ℕ → LoopState
  loop_start ctx loaded sanitizer content safe_content now = record {
    ctx = record (add_user_message safe_content now loaded) { status = Status.active };
    sanitizer = sanitizer;
    total_input_tokens = 0;
    total_output_tokens = 0;
    tool_calls_executed = 0;
    turn_count = 0;
    continue_loop = true;
    effects =
        stored ctx
        ++ remember (memory (append_message (LlmMessage.user safe_content)))
        ++ log "SESSION_START" (("content_length", num (length_of content)) ∷ []) AuditSeverity.info
          ∷ [];
  }

  -- after the loop: the usage, the ledger, the end of the session and the lessons
  unfoldable pub record_end : LoopState → LoopState
  record_end st =
      let cost = env.estimate_cost_usd st.total_input_tokens st.total_output_tokens in
      let ctx = record (record_usage st.total_input_tokens st.total_output_tokens cost st.ctx) {
        status = Status.idle;
      } in
      record st {
        ctx = ctx;
        effects =
            st.effects
            ++ record_cost st.total_input_tokens st.total_output_tokens cost
              ∷ log "SESSION_END"
                  (("input_tokens", num st.total_input_tokens)
                    ∷ ("output_tokens", num st.total_output_tokens)
                    ∷ ("cost_usd", num cost)
                    ∷ ("tool_calls_executed", num st.tool_calls_executed)
                    ∷ [])
                  AuditSeverity.info
              ∷ remember (memory finalize_session)
            ++ (if ltb 1 (length ctx.messages)
                then remember (memory (extract_lessons ctx.messages))
                else [])
            ++ yields (
                Chunk.complete st.total_input_tokens st.total_output_tokens cost
                  st.tool_calls_executed)
              ∷ session_end "complete"
              ∷ [];
      }

  -- what follows the loop; an exception skips all but the end of the session
  unfoldable pub after_loop : LoopState × Ended → LoopState × RunEnd
  unfolding record_end
  after_loop (st, finished) = (record_end st, ended finished)
  after_loop (st, out_of_fuel) = (st, ended out_of_fuel)
  after_loop (st, threw message) =
      (record st { effects = st.effects ++ session_end message ∷ [] }, ended (threw message))

  abbrev stopped : SessionContext → SanitizerService → List Effect → LoopState
  stopped ctx sanitizer effects = record {
    ctx = ctx;
    sanitizer = sanitizer;
    total_input_tokens = 0;
    total_output_tokens = 0;
    tool_calls_executed = 0;
    turn_count = 0;
    continue_loop = true;
    effects = effects;
  }

  -- the `try` block, from the history as it is loaded
  unfoldable pub start :
      ℕ
      → SessionContext
      → SanitizerService
      → String
      → String
      → SessionContext × Option String
      → LoopState × RunEnd
  unfolding after_loop loop_start
  start fuel ctx sanitizer content safe_content (loaded, some message) =
      (stopped loaded sanitizer (stored ctx ++ session_end message ∷ []), ended (threw message))
  start fuel ctx sanitizer content safe_content (loaded, none) = after_loop (
      loop env.turn (max_turns env) fuel
        (loop_start ctx loaded sanitizer content safe_content (env.turn.now 0)))

  unfoldable pub admit :
      ℕ
      → SessionContext
      → String
      → SanitizerService × SanitizeUserInputResult
      → List Effect
      → LoopState × RunEnd
  unfolding start load_memory
  admit fuel ctx content (sanitizer, result) (e ∷ es) = (stopped ctx sanitizer (e ∷ es), rejected)
  admit fuel ctx content (sanitizer, result) [] =
      start fuel ctx sanitizer content result.safe_content (load_memory env ctx)

  -- `run`. The fuel is the loop's.
  unfoldable pub run : ℕ → SessionContext → String → SanitizerService → LoopState × RunEnd
  unfolding admit gate
  run fuel ctx content s =
      let sanitized = sanitize_user_input env.runtime content ctx.session_id s in
      admit fuel ctx content sanitized (gate env ctx content sanitized.1.injection_scan)
