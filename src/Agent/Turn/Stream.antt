-- ===== src/Agent/Turn/Stream.antt =====
-- What a stream of chunks leaves of the text, the tool calls and the history.
use secure_claw.Base.{
  ℕ, String, ◌≡◌, refl, ◌∙◌, List, [], ◌∷◌, ◌++◌, if_cases, sym, ap, ◌<>◌, append-nil, snoc-append,
}
use secure_claw.Base.Dict.{Dict}
use secure_claw.Session.Context.{ToolCall}
use secure_claw.Tools.Policy.{Evaluation, ok, denied, evaluate}
use secure_claw.Agent.Executor.{SkillToolRoute}
use secure_claw.Agent.Turn.{
  TurnEnv, Turn, ProviderChunk, on_chunk, on_chunks, on_tool_call, refuse, request_approval,
  announce, prepare,
}

-- The stream does not touch the history.
on_tool_call-messages :
    (env : TurnEnv) (n : ℕ) (routes : Dict SkillToolRoute) (call : ToolCall) (e : Evaluation)
    (turn : Turn)
    → (on_tool_call env n routes call e turn).ctx.messages ≡ turn.ctx.messages
unfolding on_tool_call refuse request_approval announce prepare
on_tool_call-messages env n routes call (denied err) turn = refl
on_tool_call-messages env n routes call (ok decision) turn =
    if_cases {A = Turn} (λ t. t.ctx.messages ≡ turn.ctx.messages) decision.requires_approval
      (λ wanted. refl) (λ unwanted. refl)

pub on_chunks-messages :
    (env : TurnEnv) (n : ℕ) (routes : Dict SkillToolRoute) (chunks : List ProviderChunk)
    (turn : Turn)
    → (on_chunks env n routes chunks turn).ctx.messages ≡ turn.ctx.messages
unfolding on_chunks on_chunk
on_chunks-messages env n routes [] turn = refl
on_chunks-messages env n routes (ProviderChunk.text delta ∷ chunks) turn =
    on_chunks-messages env n routes chunks _
on_chunks-messages env n routes (ProviderChunk.tool_call call ∷ chunks) turn =
    on_chunks-messages env n routes chunks _
    ∙ on_tool_call-messages env n routes call (evaluate env.policy call.tool_id) turn
on_chunks-messages env n routes (ProviderChunk.finish tool_use i o ∷ chunks) turn =
    on_chunks-messages env n routes chunks _
on_chunks-messages env n routes (ProviderChunk.error message ∷ chunks) turn =
    on_chunks-messages env n routes chunks _

-- the tool calls of a stream, in their order
abbrev pub calls_of : List ProviderChunk → List ToolCall
calls_of [] = []
calls_of (ProviderChunk.tool_call call ∷ chunks) = call ∷ calls_of chunks
calls_of (_ ∷ chunks) = calls_of chunks

-- the text of a stream after a text
abbrev pub text_after : String → List ProviderChunk → String
text_after before [] = before
text_after before (ProviderChunk.text delta ∷ chunks) = text_after (before <> delta) chunks
text_after before (_ ∷ chunks) = text_after before chunks

module _ (env : TurnEnv) (n : ℕ) (routes : Dict SkillToolRoute) where
  -- A call is tracked, whatever the policy decides.
  on_tool_call-tracks :
      (call : ToolCall) (e : Evaluation) (turn : Turn)
      → ((on_tool_call env n routes call e turn).tool_calls_this_turn
          ≡ turn.tool_calls_this_turn ++ call ∷ [])
        × ((on_tool_call env n routes call e turn).accumulated_text ≡ turn.accumulated_text)
  unfolding on_tool_call refuse request_approval announce prepare
  on_tool_call-tracks call (denied err) turn = (refl, refl)
  on_tool_call-tracks call (ok decision) turn =
      if_cases {A = Turn}
        (λ t.
          (t.tool_calls_this_turn ≡ turn.tool_calls_this_turn ++ call ∷ [])
          × (t.accumulated_text ≡ turn.accumulated_text))
        decision.requires_approval (λ wanted. (refl, refl)) (λ unwanted. (refl, refl))

  pub on_chunks-calls :
      (chunks : List ProviderChunk) (turn : Turn)
      → (on_chunks env n routes chunks turn).tool_calls_this_turn
        ≡ turn.tool_calls_this_turn ++ calls_of chunks
  unfolding on_chunks on_chunk
  on_chunks-calls [] turn = sym (append-nil turn.tool_calls_this_turn)
  on_chunks-calls (ProviderChunk.text delta ∷ chunks) turn = on_chunks-calls chunks _
  on_chunks-calls (ProviderChunk.tool_call call ∷ chunks) turn =
      on_chunks-calls chunks _
      ∙ ap (λ cs. cs ++ calls_of chunks)
          (on_tool_call-tracks call (evaluate env.policy call.tool_id) turn).0
      ∙ snoc-append turn.tool_calls_this_turn call (calls_of chunks)
  on_chunks-calls (ProviderChunk.finish tool_use i o ∷ chunks) turn = on_chunks-calls chunks _
  on_chunks-calls (ProviderChunk.error message ∷ chunks) turn = on_chunks-calls chunks _

  pub on_chunks-text :
      (chunks : List ProviderChunk) (turn : Turn)
      → (on_chunks env n routes chunks turn).accumulated_text
        ≡ text_after turn.accumulated_text chunks
  unfolding on_chunks on_chunk
  on_chunks-text [] turn = refl
  on_chunks-text (ProviderChunk.text delta ∷ chunks) turn = on_chunks-text chunks _
  on_chunks-text (ProviderChunk.tool_call call ∷ chunks) turn =
      on_chunks-text chunks _
      ∙ ap (λ t. text_after t chunks)
          (on_tool_call-tracks call (evaluate env.policy call.tool_id) turn).1
  on_chunks-text (ProviderChunk.finish tool_use i o ∷ chunks) turn = on_chunks-text chunks _
  on_chunks-text (ProviderChunk.error message ∷ chunks) turn = on_chunks-text chunks _
