-- ===== src/Agent/Turn/Answered.antt =====
-- The history that a turn writes: every tool call of the model has a tool result.
use secure_claw.Base.{
  ℕ, String, ◌≡◌, refl, sym, ◌∙◌, ap, Bool, true, ◌||◌, none, List, ◌∷◌, ◌++◌, map, arith, ◌==◌,
  non_empty, any, any-append, any-map, All, All-imp, Bool-cases, inl, inr,
}
use mathlib.Core.Path.{subst}
use secure_claw.Base.Dict.{Dict}
use secure_claw.Sanitizer.Service.{SanitizerService, Outcome, returns, throws}
use secure_claw.Session.Context.{LlmMessage, ToolCall}
use secure_claw.Agent.{Effect}
use secure_claw.Agent.Executor.{SkillToolRoute, PendingToolCall, ToolCallResult}
use secure_claw.Agent.Executor.Order.{execute_all_in_order}
use secure_claw.Agent.Turn.{TurnEnv, Turn, ProviderChunk, ToolAnswer, on_chunks}
use secure_claw.Agent.Turn.Finish.{
  await_approvals, pending_calls, answer_of, on_results, write_history, after_execution,
  finish_turn,
}
use secure_claw.Agent.Turn.Laws.{IsFresh, SameCalls, await-SameCalls, await-keeps}
use secure_claw.Agent.Turn.Tracked.{
  answers, holds, Tracked, on_chunks-AllTracked, answered_or_pending,
}
use secure_claw.Agent.Turn.Stream.{
  calls_of, text_after, on_chunks-calls, on_chunks-text, on_chunks-messages,
}
use secure_claw.Agent.Turn.History.{
  WithResults, History, message_of, on_results-WithResults, write_history-History,
}

abbrev pub Answered : Turn → Type 0
Answered turn =
    All (λ call. any (answers call.call_id) turn.tool_results_buffer ≡ true)
      turn.tool_calls_this_turn

answered_by_results :
    (rs : List ToolCallResult) (pending : List PendingToolCall) (call_id : String)
    → map (λ r. r.call_id) rs ≡ map (λ c. c.call_id) pending
    → any (λ c. c.call_id == call_id) pending ≡ true
    → any (answers call_id) (map answer_of rs) ≡ true
answered_by_results rs pending call_id same h =
    any-map (answers call_id) answer_of rs
    ∙ sym (any-map (λ id. id == call_id) (λ r. r.call_id) rs)
    ∙ ap (any (λ id. id == call_id)) same
    ∙ any-map (λ id. id == call_id) (λ c. c.call_id) pending
    ∙ h

module _ (env : TurnEnv) (now : ℕ) (settled : Turn) (pending : List PendingToolCall) where
  abbrev Covered : ToolCall → Type 0
  Covered call =
      (any (answers call.call_id) settled.tool_results_buffer
        || any (λ c. c.call_id == call.call_id) pending)
      ≡ true

  abbrev Complete : Turn → Type 0
  Complete done =
      Answered done
      × (done.ctx.messages
          ≡ settled.ctx.messages
            ++ LlmMessage.assistant settled.accumulated_text settled.tool_calls_this_turn
              ∷ map message_of done.tool_results_buffer)
      × (done.tool_calls_this_turn ≡ settled.tool_calls_this_turn)

  completed :
      (rs : List ToolCallResult) (mid done : Turn)
      → WithResults rs settled mid
      → History env now mid done
      → All Covered settled.tool_calls_this_turn
      → map (λ r. r.call_id) rs ≡ map (λ c. c.call_id) pending
      → Complete done
  completed rs mid done executed written covered ordered =
      let answered : (call : ToolCall)
          → Covered call
          → any (answers call.call_id) (settled.tool_results_buffer ++ map answer_of rs) ≡ true =
        λ call h. ground (
          arith,
          any-append (answers call.call_id) settled.tool_results_buffer (map answer_of rs),
          answered_by_results rs pending call.call_id ordered,
        ) in
      (
        rw (written.2, executed.1, written.1, executed.0)
            (All-imp settled.tool_calls_this_turn answered covered),
        rw (written.0, executed.1, executed.2, executed.3) refl,
        written.2 ∙ executed.1,
      )

  after_execution-Complete :
      (s : SanitizerService) (effects : List Effect) (o : Outcome (List ToolCallResult))
      → non_empty settled.tool_calls_this_turn ≡ true
      → All Covered settled.tool_calls_this_turn
      → ((rs : List ToolCallResult)
          → o ≡ returns rs
          → map (λ r. r.call_id) rs ≡ map (λ c. c.call_id) pending)
      → (after_execution env now settled (s, effects, o)).3 ≡ none
      → Complete (after_execution env now settled (s, effects, o)).0
  unfolding after_execution
  after_execution-Complete s effects (throws m) called covered ordered ended = absurd (ground arith)
  after_execution-Complete s effects (returns rs) called covered ordered ended =
      let executed = record settled { effects = settled.effects ++ effects } in
      let results = on_results-WithResults rs executed in
      completed rs (on_results rs executed) (write_history env now (on_results rs executed)) results
        (write_history-History env now (on_results rs executed) (ap non_empty results.1 ∙ called))
        covered (ordered rs refl)

Tracked-settled :
    (streamed settled : Turn)
    → SameCalls streamed settled
    → ((p : ToolAnswer → Bool)
        → any p streamed.tool_results_buffer ≡ true
        → any p settled.tool_results_buffer ≡ true)
    → All
        (Tracked streamed.tool_results_buffer streamed.prepared_calls)
        streamed.tool_calls_this_turn
    → All
        (λ call.
          (any (answers call.call_id) settled.tool_results_buffer
            || any (λ c. c.call_id == call.call_id) (pending_calls settled settled.prepared_calls))
          ≡ true)
        settled.tool_calls_this_turn
unfolding pending_calls
Tracked-settled streamed settled same kept h = rw same.2 (
    All-imp streamed.tool_calls_this_turn
      (λ call tracked. elim (Bool-cases (any (answers call.call_id) streamed.tool_results_buffer)) [
        | inl early ↦ ground (arith, kept (answers call.call_id) early)
        | inr late ↦
            answered_or_pending settled call.call_id settled.prepared_calls
              (ap (any (holds call.call_id)) same.0 ∙ ground arith)
      ])
      h)

-- The calls that a turn has tracked are answered, and written to the history before the results.
tracked_calls-Answered :
    (env : TurnEnv) (n now : ℕ) (routes : Dict SkillToolRoute) (chunks : List ProviderChunk)
    (turn : Turn) (s : SanitizerService)
    → IsFresh turn
    → let streamed = on_chunks env n routes chunks turn in
      let finished = finish_turn env now streamed s in
      non_empty streamed.tool_calls_this_turn ≡ true
      → finished.3 ≡ none
      → Answered finished.0
        × (finished.0.ctx.messages
            ≡ turn.ctx.messages
              ++ LlmMessage.assistant streamed.accumulated_text streamed.tool_calls_this_turn
                ∷ map message_of finished.0.tool_results_buffer)
        × (finished.0.tool_calls_this_turn ≡ streamed.tool_calls_this_turn)
unfolding finish_turn
tracked_calls-Answered env n now routes chunks turn s fresh called ended =
    let streamed = on_chunks env n routes chunks turn in
    let settled = await_approvals streamed.approval_promises streamed in
    let same = await-SameCalls streamed.approval_promises streamed in
    let covered =
      Tracked-settled streamed settled same (λ p. await-keeps p streamed.approval_promises streamed)
        (on_chunks-AllTracked env n routes chunks turn (rw fresh.3 tt)) in
    let complete =
      after_execution-Complete env now settled (pending_calls settled settled.prepared_calls) _ _ _
        (ap non_empty same.2 ∙ called) covered
        (λ rs h.
          (execute_all_in_order env.exec settled.ctx (pending_calls settled settled.prepared_calls)
            s rs h).0)
        ended in
    let results = map message_of (finish_turn env now streamed s).0.tool_results_buffer in
    let before = same.4 ∙ on_chunks-messages env n routes chunks turn in
    let text = settled.accumulated_text in
    (
      complete.0,
      complete.1
          ∙ ap (λ ms. ms ++ LlmMessage.assistant text settled.tool_calls_this_turn ∷ results) before
          ∙ ap
              (λ t.
                turn.ctx.messages ++ LlmMessage.assistant t settled.tool_calls_this_turn ∷ results)
              same.3
          ∙ ap
              (λ cs.
                turn.ctx.messages ++ LlmMessage.assistant streamed.accumulated_text cs ∷ results)
              same.2,
      complete.2 ∙ same.2,
    )

-- A turn of which the model's stream has tool calls, and which ends without an exception, answers
-- each of them, whether the policy or the user refused it or it was executed: what it appends to
-- the history is the assistant's message with the streamed text and all the streamed calls in their
-- order, and after it the tool results, among which there is one for the id of every call.
pub every_call-Answered :
    (env : TurnEnv) (n now : ℕ) (routes : Dict SkillToolRoute) (chunks : List ProviderChunk)
    (turn : Turn) (s : SanitizerService)
    → IsFresh turn
    → non_empty (calls_of chunks) ≡ true
    → let finished = finish_turn env now (on_chunks env n routes chunks turn) s in
      finished.3 ≡ none
      → All
          (λ call. any (answers call.call_id) finished.0.tool_results_buffer ≡ true)
          (calls_of chunks)
        × (finished.0.ctx.messages
            ≡ turn.ctx.messages
              ++ LlmMessage.assistant (text_after turn.accumulated_text chunks) (calls_of chunks)
                ∷ map message_of finished.0.tool_results_buffer)
every_call-Answered env n now routes chunks turn s fresh called ended =
    let streamed = on_chunks env n routes chunks turn in
    let calls : streamed.tool_calls_this_turn ≡ calls_of chunks =
      on_chunks-calls env n routes chunks turn ∙ ap (λ cs. cs ++ calls_of chunks) fresh.3 in
    let done =
      tracked_calls-Answered env n now routes chunks turn s fresh (ap non_empty calls ∙ called)
        ended in
    let results = map message_of (finish_turn env now streamed s).0.tool_results_buffer in
    (
      subst
          (All (λ call.
            any (answers call.call_id) (finish_turn env now streamed s).0.tool_results_buffer
            ≡ true))
          (done.2 ∙ calls) done.0,
      done.1
          ∙ ap
              (λ t.
                turn.ctx.messages ++ LlmMessage.assistant t streamed.tool_calls_this_turn ∷ results)
              (on_chunks-text env n routes chunks turn)
          ∙ ap
              (λ cs.
                turn.ctx.messages
                ++ LlmMessage.assistant (text_after turn.accumulated_text chunks) cs ∷ results)
              calls,
    )
