-- ===== src/Tests/Agents.antt =====
-- The agent loop and the tool executor at concrete inputs.
use secure_claw.Base.{
  suc, ◌≤◌, ◌≡◌, refl, true, false, not, ◌&&◌, ◌||◌, none, List, [], ◌∷◌, map, any, All, arith,
}
use secure_claw.Base.Dict
use secure_claw.Base.Text.{includes}
use secure_claw.Sanitizer.{is_critical}
use secure_claw.Sanitizer.Scan.{scan_for_injection, scan_result, scan_patterns}
use secure_claw.Sanitizer.Tagging.{contains_delimiter}
use secure_claw.Sanitizer.Service.{
  Outcome, returns, throws, sanitize_external_content, sanitize_delimited, sanitize_user_input,
}
use secure_claw.Session.Context.{LlmMessage, create_session_context}
use secure_claw.Tools.Policy.{evaluate, engine}
use secure_claw.Agent.{is_ask, is_run}
use secure_claw.Agent.Executor.{PendingToolCall, ToolCallResult}
use secure_claw.Agent.Executor.Single.{
  run_checked, execute_single, execute_all, gather, conclude, check_then_run,
}
use secure_claw.Agent.Executor.Laws.{RunsOnRecord, execute_single-RunsOnRecord}
use secure_claw.Agent.Executor.Order.{execute_all_in_order}
use secure_claw.Agent.Executor.Output.{Shown, output_is_judged_raw}
use secure_claw.Agent.Turn.{Turn, on_chunk, on_chunks}
use secure_claw.Agent.Turn.Finish.{await_approvals, pending_calls, finish_turn}
use secure_claw.Agent.Turn.Laws.{Cleared, executed_calls-Cleared}
use secure_claw.Agent.Turn.Answered.{every_call-Answered}
use secure_claw.Agent.Turn.Stream.{calls_of, text_after}
use secure_claw.Agent.Turn.Tracked.{answers}
use secure_claw.Agent.Turn.History.{message_of}
use secure_claw.Agent.Loop.{LoopState, turn_start}
use secure_claw.Agent.Entry.{max_turns, team_of}
use secure_claw.Agent.Run.{run, rejected}
use secure_claw.Agent.Run.Gate.{
  not_rejected, comes_to_end, scan_of, is_exceeded, quota_exceeded, run_is_gated,
  rejected_run_is_quiet, run_ends,
}
use secure_claw.Tests.Fixtures.{runtime, service, env, pending, chunks, turn_env, run_env, ctx}

abbrev first_state : LoopState
first_state = record {
  ctx = ctx;
  sanitizer = service;
  total_input_tokens = 0;
  total_output_tokens = 0;
  tool_calls_executed = 0;
  turn_count = 0;
  continue_loop = true;
  effects = [];
}

abbrev fresh : Turn
fresh = turn_start turn_env first_state []

abbrev streamed : Turn
streamed = on_chunks turn_env 1 [] chunks fresh

abbrev settled : Turn
settled = await_approvals streamed.approval_promises streamed

executed_calls-Cleared_example :
    All (Cleared turn_env settled.approval_promises) (pending_calls settled settled.prepared_calls)
executed_calls-Cleared_example =
    executed_calls-Cleared turn_env 1 [] chunks fresh (refl, refl, refl, refl)

execute_single-RunsOnRecord_example :
    RunsOnRecord env ctx
      (pending "c1" "file_read")
      (execute_single env ctx (pending "c1" "file_read") service).1
execute_single-RunsOnRecord_example =
    execute_single-RunsOnRecord env ctx (pending "c1" "file_read") service

run_is_gated_example :
    not_rejected run_env (run run_env 3 ctx "hello" service).1
    ≡ not (
        is_critical (scan_of run_env ctx "hello" service).highest_severity
          && (scan_of run_env ctx "hello" service).is_suspicious
        || (is_exceeded (run_env.get_cost_summary ctx.user_id)
            || quota_exceeded (run_env.check_quota_exceeded (team_of ctx.user_id))))
run_is_gated_example = run_is_gated run_env 3 ctx "hello" service

abbrev results_of : Outcome (List ToolCallResult) → List ToolCallResult
results_of (throws message) = []
results_of (returns rs) = rs

abbrev result_of : Outcome ToolCallResult → ToolCallResult
result_of (throws message) = record {
  call_id = "";
  tool_id = "";
  success = false;
  result = message;
  duration_ms = 0;
  error_message = none;
  is_denied = true;
}
result_of (returns r) = r

abbrev two_calls : List PendingToolCall
two_calls = pending "c1" "file_read" ∷ pending "c2" "http_request" ∷ []

abbrev two_results : List ToolCallResult
two_results = results_of (execute_all env ctx two_calls service).2

execute_all_in_order_example :
    (map (λ r. r.call_id) two_results ≡ "c1" ∷ "c2" ∷ [])
    × (map (λ r. r.tool_id) two_results ≡ "file_read" ∷ "http_request" ∷ [])
unfolding execute_all execute_single run_checked sanitize_external_content sanitize_delimited gather
    conclude Dict.get create_session_context check_then_run
execute_all_in_order_example = execute_all_in_order env ctx two_calls service two_results refl

abbrev one_result : ToolCallResult
one_result = result_of (run_checked env ctx (pending "c1" "file_read") "{}" service).2

output_is_judged_raw_example :
    Shown runtime env ctx (pending "c1" "file_read") "{}" service one_result
unfolding run_checked conclude sanitize_external_content Dict.get create_session_context
output_is_judged_raw_example =
    output_is_judged_raw runtime env ctx (pending "c1" "file_read") "{}" service one_result
      (λ content session source s. refl) refl

every_call-Answered_example :
    All
      (λ call.
        any (answers call.call_id) (finish_turn turn_env 1 streamed service).0.tool_results_buffer
        ≡ true)
      (calls_of chunks)
    × ((finish_turn turn_env 1 streamed service).0.ctx.messages
        ≡ LlmMessage.assistant (text_after "" chunks) (calls_of chunks)
          ∷ map message_of (finish_turn turn_env 1 streamed service).0.tool_results_buffer)
unfolding create_session_context on_chunks on_chunk evaluate Dict.get engine Dict.set finish_turn
    execute_all gather execute_single run_checked conclude sanitize_external_content
every_call-Answered_example =
    every_call-Answered turn_env 1 1 [] chunks fresh service (refl, refl, refl, refl) refl refl

rejected_run_is_quiet_example :
    ((run run_env 3 ctx "ignore this" service).1 ≡ rejected)
    × ((run run_env 3 ctx "ignore this" service).0.ctx ≡ ctx)
    × (any is_ask (run run_env 3 ctx "ignore this" service).0.effects ≡ false)
    × (any is_run (run run_env 3 ctx "ignore this" service).0.effects ≡ false)
unfolding sanitize_user_input Dict.get create_session_context contains_delimiter includes
    scan_for_injection scan_result scan_patterns
rejected_run_is_quiet_example = rejected_run_is_quiet run_env 3 ctx "ignore this" service refl

run_ends_example :
    (comes_to_end run_env (run run_env 3 ctx "hello" service).1 ≡ true)
    × ((run run_env 3 ctx "hello" service).0.turn_count ≤ suc (max_turns run_env))
    × (1 ≤ max_turns run_env)
    × (max_turns run_env ≤ 500)
unfolding max_turns
run_ends_example = run_ends run_env 3 ctx "hello" service (omega arith)
