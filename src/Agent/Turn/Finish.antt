-- ===== src/Agent/Turn/Finish.antt =====
-- packages/agent-runtime/src/llm/agent-loop.ts, the rest of a turn: the approvals, the execution
-- of the calls that are left, and the history.
use secure_claw.Base.{
  ℕ, String, ◌<>◌, Bool, true, false, not, ◌&&◌, ◌||◌, Option, none, some, List, [], ◌∷◌, ◌++◌,
  ◌==◌, if◌then◌else◌, or_else, any, non_empty,
}
use secure_claw.Base.Json.{str}
use secure_claw.Sanitizer.Service.{SanitizerService, Outcome, returns, throws}
use secure_claw.Session.Context.{LlmMessage, Status, add_assistant_message, add_tool_result}
use secure_claw.Agent.{AuditSeverity, Chunk, Effect, append_message, yields, memory}
use secure_claw.Agent.Executor.{PendingToolCall, ToolCallResult, log}
use secure_claw.Agent.Executor.Single.{execute_all}
use secure_claw.Agent.Turn.{TurnEnv, Turn, PreparedToolCall, ApprovalPromise, ToolAnswer}

abbrev pub denied_by_user : String
denied_by_user = "[TOOL EXECUTION DENIED BY USER]"

-- what `await ap.promise` gives; a rejected promise is a refusal
unfoldable pub is_granted : ApprovalPromise → Bool
is_granted ap = elim ap.promise [ throws message ↦ false | returns approved ↦ approved ]

abbrev decision_event : ApprovalPromise → Bool → Effect
decision_event ap approved =
    log (if approved then "APPROVAL_GRANTED" else "APPROVAL_DENIED")
      (("call_id", str ap.call_id) ∷ ("tool_id", str ap.tool_id) ∷ [])
      (if approved then AuditSeverity.info else AuditSeverity.warn)

-- one pass of the loop over `approvalPromises`, for a decision
unfoldable pub on_decision : ApprovalPromise → Bool → Turn → Turn
on_decision ap true turn = record turn { effects = turn.effects ++ decision_event ap true ∷ [] }
on_decision ap false turn = record turn {
  effects =
      turn.effects
      ++ decision_event ap false
        ∷ yields (
            Chunk.failure "APPROVAL_DENIED"
              ("Tool '" <> (ap.tool_id <> "' was denied by the user")))
        ∷ [];
  tool_results_buffer =
      turn.tool_results_buffer
      ++ record { call_id = ap.call_id; tool_id = ap.tool_id; result = denied_by_user } ∷ [];
}

unfoldable pub await_approvals : List ApprovalPromise → Turn → Turn
unfolding on_decision is_granted
await_approvals [] turn = record turn { ctx = record turn.ctx { status = Status.active } }
await_approvals (ap ∷ aps) turn = await_approvals aps (on_decision ap (is_granted ap) turn)

-- the test that leaves a prepared call out of `pendingCalls`
abbrev pub is_denied_answer : String → ToolAnswer → Bool
is_denied_answer call_id tr = (tr.call_id == call_id) && (tr.result == denied_by_user)

unfoldable pub is_approved : Turn → PreparedToolCall → Bool
is_approved turn pc =
    if any (λ ap. ap.call_id == pc.call_id) turn.approval_promises
    then not (any (is_denied_answer pc.call_id) turn.tool_results_buffer)
    else true

abbrev pub pending_call : PreparedToolCall → PendingToolCall
pending_call pc = record {
  call_id = pc.call_id;
  tool_id = pc.tool_id;
  input = pc.input;
  input_preview = pc.input_preview;
  decision = pc.decision;
  approved = true;
  skill_route = pc.skill_route;
}

-- `pendingCalls`
unfoldable pub pending_calls : Turn → List PreparedToolCall → List PendingToolCall
unfolding is_approved
pending_calls turn [] = []
pending_calls turn (pc ∷ pcs) =
    let rest = pending_calls turn pcs in
    if is_approved turn pc then pending_call pc ∷ rest else rest

-- the loop over `results`
abbrev pub answer_of : ToolCallResult → ToolAnswer
answer_of r = record { call_id = r.call_id; tool_id = r.tool_id; result = r.result }

unfoldable pub on_results : List ToolCallResult → Turn → Turn
on_results [] turn = turn
on_results (r ∷ rs) turn = on_results rs (record turn {
  ctx = record turn.ctx { had_tool_failure = turn.ctx.had_tool_failure || not r.success };
  effects =
      turn.effects
      ++ yields (
          Chunk.tool_result r.call_id r.tool_id r.success r.duration_ms
            (or_else r.error_message ""))
        ∷ [];
  tool_results_buffer = turn.tool_results_buffer ++ answer_of r ∷ [];
})

module _ (env : TurnEnv) (now : ℕ) where
  -- `this.memoryClient?.appendMessage(…)`
  abbrev persist : LlmMessage → List Effect
  persist message = if env.has_memory then memory (append_message message) ∷ [] else []

  -- the assistant's message, unless the turn has neither text nor tool calls
  unfoldable pub write_assistant : Turn → Turn
  write_assistant turn =
      if not (turn.accumulated_text == "") || non_empty turn.tool_calls_this_turn
      then record turn {
        ctx = add_assistant_message turn.accumulated_text turn.tool_calls_this_turn now turn.ctx;
        effects =
            turn.effects
            ++ persist (LlmMessage.assistant turn.accumulated_text turn.tool_calls_this_turn);
      }
      else turn

  unfoldable pub write_results : List ToolAnswer → Turn → Turn
  write_results [] turn = turn
  write_results (tr ∷ trs) turn = write_results trs (record turn {
    ctx = add_tool_result tr.call_id tr.tool_id tr.result now turn.ctx;
    effects = turn.effects ++ persist (LlmMessage.tool tr.result tr.call_id tr.tool_id);
  })

  -- the history of the turn, and whether the loop goes on
  unfoldable pub write_history : Turn → Turn
  unfolding write_assistant write_results
  write_history turn =
      let written = write_results turn.tool_results_buffer (write_assistant turn) in
      record written { continue_loop = turn.continue_loop && turn.had_tool_calls_this_turn }

  -- what follows the execution; an exception in it ends the run
  unfoldable pub after_execution :
      Turn
      → SanitizerService × List Effect × Outcome (List ToolCallResult)
      → Turn × SanitizerService × List ToolCallResult × Option String
  unfolding on_results write_history
  after_execution turn (s, effects, throws message) =
      (record turn { effects = turn.effects ++ effects }, s, [], some message)
  after_execution turn (s, effects, returns results) = (
    write_history (on_results results (record turn { effects = turn.effects ++ effects })),
    s,
    results,
    none,
  )

  -- phases two and three, for the turn as the stream leaves it
  unfoldable pub finish_turn :
      Turn → SanitizerService → Turn × SanitizerService × List ToolCallResult × Option String
  unfolding after_execution await_approvals pending_calls
  finish_turn turn s =
      let settled = await_approvals turn.approval_promises turn in
      after_execution settled
        (execute_all env.exec settled.ctx (pending_calls settled settled.prepared_calls) s)
