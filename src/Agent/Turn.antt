-- ===== src/Agent/Turn.antt =====
-- packages/agent-runtime/src/llm/agent-loop.ts, one turn of the loop: the chunks of the language
-- model's stream, with the policy check of every tool call. The system prompt, the spans and the
-- delivery of alerts are left out.
pub mod Finish
pub mod Laws
pub mod Tracked
pub mod Stream
pub mod History
pub mod Answered
use secure_claw.Base.{
  ℕ, ◌+◌, String, ◌<>◌, Bool, true, false, not, ◌&&◌, ◌||◌, Option, none, some, List, [], ◌∷◌, ◌++◌,
  map, ◌==◌, if◌then◌else◌, length, any, keep,
}
use secure_claw.Base.Dict
use secure_claw.Base.Dict.{Dict}
use secure_claw.Base.Text.{slice_to}
use secure_claw.Base.Json.{Json, str}
use secure_claw.Sanitizer.Service.{Outcome, returns, throws}
use secure_claw.Session.Context.{SessionContext, ToolCall, LlmMessage, Status}
use secure_claw.Tools.Policy.{
  ToolPolicyEngine, PolicyDecisionResult, PolicyDeniedError, Evaluation, ok, denied, evaluate,
  is_allowed,
}
use secure_claw.Tools.Approval.{WaitParams}
use secure_claw.Agent.{
  AuditSeverity, Chunk, Effect, LlmTool, alert, audit, yields, wait_for_approval,
}
use secure_claw.Agent.Executor.{Env, SkillToolRoute, log, fire}

-- the chunks of `streamCompletion`; `finish` says whether the reason is "tool_use"
pub data ProviderChunk : Type 0 where
  text : String → ProviderChunk
  tool_call : ToolCall → ProviderChunk
  finish : (tool_use : Bool) (input_tokens output_tokens : ℕ) → ProviderChunk
  error : String → ProviderChunk

pub record SkillTool : Type 0 where
  pub tool_id : String
  pub description : String
  pub requires_approval : Bool

pub record SkillManifest : Type 0 where
  pub tools : List SkillTool
  pub credential_refs : List String

pub record SkillSummary : Type 0 where
  pub id : String
  pub version : String

-- The manifest is the outcome of parsing it; `none` is a skill that is not found.
pub record SkillsClient : Type 0 where
  pub list_skills : Outcome (List SkillSummary)
  pub get_skill : String → String → Outcome (Option (Outcome SkillManifest))

-- What a turn asks of the world. The numbers are the turn's, and the approval's within the turn.
pub record TurnEnv : Type 0 where
  pub exec : Env
  pub policy : ToolPolicyEngine
  -- the chunks of the stream, and the error that it ends with, if it throws
  pub stream : ℕ → List LlmMessage → List LlmTool → List ProviderChunk × Option String
  -- what becomes of the promise of `waitForApproval`
  pub approval : ℕ → ℕ → WaitParams → Outcome Bool
  pub skills_client : ℕ → Option SkillsClient
  pub has_memory : Bool
  pub now : ℕ → ℕ

pub record PreparedToolCall : Type 0 where
  pub call_id : String
  pub tool_id : String
  pub input : Json
  pub input_preview : String
  pub decision : PolicyDecisionResult
  pub skill_route : Option SkillToolRoute

-- an element of `approvalPromises`
pub record ApprovalPromise : Type 0 where
  pub call_id : String
  pub tool_id : String
  pub promise : Outcome Bool

-- an element of `toolResultsBuffer`
pub record ToolAnswer : Type 0 where
  pub call_id : String
  pub tool_id : String
  pub result : String

-- The variables of a turn; the token totals and the flag of the loop live on between turns.
pub record Turn : Type 0 where
  pub ctx : SessionContext
  pub accumulated_text : String
  pub had_tool_calls_this_turn : Bool
  pub tool_calls_this_turn : List ToolCall
  pub tool_results_buffer : List ToolAnswer
  pub prepared_calls : List PreparedToolCall
  pub approval_promises : List ApprovalPromise
  pub total_input_tokens : ℕ
  pub total_output_tokens : ℕ
  pub continue_loop : Bool
  pub effects : List Effect

abbrev with_effects : Turn → List Effect → Turn
with_effects turn effects = record turn { effects = turn.effects ++ effects }

-- the `message` of the exception
abbrev message_of : PolicyDeniedError → String
message_of err = "Tool '" <> (err.tool_id <> ("' denied by policy: " <> err.reason))

abbrev denied_by_policy : String
denied_by_policy = "[TOOL DENIED BY POLICY]"

module _ (env : TurnEnv) (turn_count : ℕ) (routes : Dict SkillToolRoute) where
  abbrev preview : ToolCall → String
  preview call = slice_to 300 (env.exec.codec.stringify call.input)

  -- `toolCallsThisTurn.push(…)`
  abbrev pub track : ToolCall → Turn → Turn
  track call turn = record turn {
    had_tool_calls_this_turn = true;
    tool_calls_this_turn = turn.tool_calls_this_turn ++ call ∷ [];
  }

  -- the `catch` of the policy check
  unfoldable pub refuse : ToolCall → PolicyDeniedError → Turn → Turn
  refuse call err turn = record turn {
    effects =
        turn.effects
        ++ log "POLICY_DENIED"
            (("tool_id", str call.tool_id) ∷ ("reason", str (message_of err)) ∷ [])
            AuditSeverity.warn
          ∷ fire env.exec "POLICY_DENIED"
              (("reason", "policy_engine_denied") ∷ ("tool_id", call.tool_id) ∷ [])
        ++ yields (
            Chunk.failure "POLICY_DENIED"
              ("Tool '" <> (call.tool_id <> "' is not allowed by policy")))
          ∷ [];
    tool_results_buffer =
        turn.tool_results_buffer
        ++ record { call_id = call.call_id; tool_id = call.tool_id; result = denied_by_policy }
          ∷ [];
  }

  abbrev pub wait_params : Turn → ToolCall → WaitParams
  wait_params turn call = record {
    call_id = call.call_id;
    tool_id = call.tool_id;
    session_id = turn.ctx.session_id;
    input_preview = preview call;
  }

  unfoldable pub request_approval : ToolCall → Turn → Turn
  request_approval call turn = record turn {
    ctx = record turn.ctx { status = Status.awaiting_approval };
    effects =
        turn.effects
        ++ yields (Chunk.tool_pending call.call_id call.tool_id (preview call) true 300)
          ∷ log "APPROVAL_REQUESTED"
              (("call_id", str call.call_id)
                ∷ ("tool_id", str call.tool_id)
                ∷ ("input_preview", str (preview call))
                ∷ [])
              AuditSeverity.info
          ∷ fire env.exec "APPROVAL_REQUESTED" (
              ("call_id", call.call_id)
              ∷ ("tool_id", call.tool_id)
              ∷ ("input_preview", env.exec.strip_vault_refs (slice_to 300 (preview call)))
              ∷ [])
        ++ wait_for_approval (wait_params turn call) ∷ [];
    approval_promises =
        turn.approval_promises
        ++ record {
          call_id = call.call_id;
          tool_id = call.tool_id;
          promise = env.approval turn_count (length turn.approval_promises) (wait_params turn call);
        }
          ∷ [];
  }

  unfoldable pub announce : ToolCall → Turn → Turn
  announce call turn =
      with_effects turn
        (yields (Chunk.tool_pending call.call_id call.tool_id (preview call) false 0) ∷ [])

  -- `preparedCalls.push(…)`
  unfoldable pub prepare : ToolCall → PolicyDecisionResult → Turn → Turn
  prepare call decision turn = record turn {
    prepared_calls =
        turn.prepared_calls
        ++ record {
          call_id = call.call_id;
          tool_id = call.tool_id;
          input = call.input;
          input_preview = preview call;
          decision = decision;
          skill_route = Dict.get routes call.tool_id;
        }
          ∷ [];
  }

  unfoldable pub on_tool_call : ToolCall → Evaluation → Turn → Turn
  unfolding refuse request_approval announce prepare
  on_tool_call call (denied err) turn = refuse call err (track call turn)
  on_tool_call call (ok decision) turn = prepare call decision (
      if decision.requires_approval
      then request_approval call (track call turn)
      else announce call (track call turn))

  unfoldable pub on_chunk : ProviderChunk → Turn → Turn
  unfolding on_tool_call
  on_chunk (ProviderChunk.text delta) turn = record turn {
    accumulated_text = turn.accumulated_text <> delta;
    effects = turn.effects ++ yields (Chunk.text delta) ∷ [];
  }
  on_chunk (ProviderChunk.tool_call call) turn =
      on_tool_call call (evaluate env.policy call.tool_id) turn
  on_chunk (ProviderChunk.finish tool_use input_tokens output_tokens) turn = record turn {
    total_input_tokens = turn.total_input_tokens + input_tokens;
    total_output_tokens = turn.total_output_tokens + output_tokens;
    continue_loop = turn.continue_loop && tool_use;
  }
  on_chunk (ProviderChunk.error message) turn = record turn {
    effects = turn.effects ++ yields (Chunk.failure "LLM_ERROR" message) ∷ [];
    continue_loop = false;
  }

  -- the `for await` over the stream
  unfoldable pub on_chunks : List ProviderChunk → Turn → Turn
  on_chunks [] turn = turn
  on_chunks (chunk ∷ chunks) turn = on_chunks chunks (on_chunk chunk turn)
