-- ===== src/Agent/Turn/History.antt =====
-- What the end of a turn writes to the history.
use secure_claw.Base.{
  ℕ, ◌≡◌, refl, sym, ◌∙◌, ap, true, not, ◌||◌, List, [], ◌∷◌, ◌++◌, map, arith, ◌==◌, non_empty,
  snoc-append, append-nil, if_cases,
}
use secure_claw.Session.Context.{LlmMessage, add_assistant_message, add_tool_result}
use secure_claw.Agent.Executor.{ToolCallResult}
use secure_claw.Agent.Turn.{TurnEnv, Turn, ToolAnswer}
use secure_claw.Agent.Turn.Finish.{
  answer_of, on_results, write_assistant, write_results, write_history,
}

abbrev pub WithResults : List ToolCallResult → Turn → Turn → Type 0
WithResults rs before after =
    (after.tool_results_buffer ≡ before.tool_results_buffer ++ map answer_of rs)
    × (after.tool_calls_this_turn ≡ before.tool_calls_this_turn)
    × (after.accumulated_text ≡ before.accumulated_text)
    × (after.ctx.messages ≡ before.ctx.messages)

pub on_results-WithResults :
    (rs : List ToolCallResult) (turn : Turn) → WithResults rs turn (on_results rs turn)
unfolding on_results
on_results-WithResults [] turn = (sym (append-nil turn.tool_results_buffer), refl, refl, refl)
on_results-WithResults (r ∷ rs) turn =
    let rest = on_results-WithResults rs _ in
    (
      rest.0 ∙ snoc-append turn.tool_results_buffer (answer_of r) (map answer_of rs),
      rest.1,
      rest.2,
      rest.3,
    )

abbrev pub message_of : ToolAnswer → LlmMessage
message_of tr = LlmMessage.tool tr.result tr.call_id tr.tool_id

module _ (env : TurnEnv) (now : ℕ) where
  abbrev Written : List ToolAnswer → Turn → Turn → Type 0
  Written trs before after =
      (after.ctx.messages ≡ before.ctx.messages ++ map message_of trs)
      × (after.tool_results_buffer ≡ before.tool_results_buffer)
      × (after.tool_calls_this_turn ≡ before.tool_calls_this_turn)

  write_results-Written :
      (trs : List ToolAnswer) (turn : Turn) → Written trs turn (write_results env now trs turn)
  unfolding write_results add_tool_result
  write_results-Written [] turn = (sym (append-nil turn.ctx.messages), refl, refl)
  write_results-Written (tr ∷ trs) turn =
      let rest = write_results-Written trs _ in
      (rest.0 ∙ snoc-append turn.ctx.messages (message_of tr) (map message_of trs), rest.1, rest.2)

  abbrev OpenedBy : Turn → Turn → Type 0
  OpenedBy before after =
      (after.ctx.messages
        ≡ before.ctx.messages
          ++ LlmMessage.assistant before.accumulated_text before.tool_calls_this_turn ∷ [])
      × (after.tool_results_buffer ≡ before.tool_results_buffer)
      × (after.tool_calls_this_turn ≡ before.tool_calls_this_turn)

  write_assistant-OpenedBy :
      (turn : Turn)
      → non_empty turn.tool_calls_this_turn ≡ true
      → OpenedBy turn (write_assistant env now turn)
  unfolding write_assistant add_assistant_message
  write_assistant-OpenedBy turn called =
      if_cases (OpenedBy turn)
        (not (turn.accumulated_text == "") || non_empty turn.tool_calls_this_turn)
        (λ written. (refl, refl, refl)) (λ silent. absurd (ground arith))

  -- The history of a turn with tool calls.
  abbrev pub History : Turn → Turn → Type 0
  History before after =
      (after.ctx.messages
        ≡ before.ctx.messages
          ++ LlmMessage.assistant before.accumulated_text before.tool_calls_this_turn
            ∷ map message_of after.tool_results_buffer)
      × (after.tool_results_buffer ≡ before.tool_results_buffer)
      × (after.tool_calls_this_turn ≡ before.tool_calls_this_turn)

  pub write_history-History :
      (turn : Turn)
      → non_empty turn.tool_calls_this_turn ≡ true
      → History turn (write_history env now turn)
  unfolding write_history
  write_history-History turn called =
      let opened = write_assistant-OpenedBy turn called in
      let rest = write_results-Written turn.tool_results_buffer (write_assistant env now turn) in
      let message = LlmMessage.assistant turn.accumulated_text turn.tool_calls_this_turn in
      let buffer = rest.1 ∙ opened.1 in
      (
        rest.0
            ∙ ap (λ ms. ms ++ map message_of turn.tool_results_buffer) opened.0
            ∙ snoc-append turn.ctx.messages message (map message_of turn.tool_results_buffer)
            ∙ ap (λ trs. turn.ctx.messages ++ message ∷ map message_of trs) (sym buffer),
        buffer,
        rest.2 ∙ opened.2,
      )
