-- ===== src/Agent.antt =====
-- packages/agent-runtime/src/llm: the agent loop and the tool executor. The types of what they do
-- to the world outside, in the order in which they do it.
pub mod Executor
pub mod Turn
pub mod Loop
pub mod Entry
pub mod Run
use secure_claw.Base.{ℕ, String, Bool, true, false, Option, List, ◌==◌}
use secure_claw.Base.Json.{Json}
use secure_claw.Session.Context.{LlmMessage, ToolCall}
use secure_claw.Tools.Approval.{WaitParams}

pub data AuditSeverity : Type 0 where
  info warn error critical : AuditSeverity

-- `logEvent`; the session id and the user id are those of the context.
pub record AuditEvent : Type 0 where
  pub event_type : String
  pub payload : List (String × Json)
  pub severity : AuditSeverity

-- `fireAlert`, without the time and the version
pub record Alert : Type 0 where
  pub event_type : String
  pub details : List (String × String)

-- `GrpcAgentChunk`
pub data Chunk : Type 0 where
  text : String → Chunk
  injection_warning : (excerpt pattern_matched : String) → Chunk
  failure : (code message : String) → Chunk
  tool_pending :
      (call_id tool_id input_preview : String) (requires_approval : Bool) (timeout_seconds : ℕ)
      → Chunk
  tool_result :
      (call_id tool_id : String) (success : Bool) (duration_ms : ℕ) (error_message : String) → Chunk
  complete : (input_tokens output_tokens cost_usd tool_calls_executed : ℕ) → Chunk

pub record ToolRequest : Type 0 where
  pub call_id : String
  pub tool_id : String
  pub image : String
  pub input_json : String
  pub timeout_seconds : ℕ
  pub memory_bytes : ℕ
  pub cpu_shares : ℕ
  pub pids_limit : ℕ
  pub network_mode : String
  pub workspace_volume : String

pub record SkillRequest : Type 0 where
  pub skill_id : String
  pub skill_version : String
  pub tool_id : String
  pub input_json : String
  pub call_id : String
  pub session_id : String

-- `LLMTool`, without its input schema
pub record LlmTool : Type 0 where
  pub id : String
  pub description : String

pub data MemoryOp : Type 0 where
  store_session finalize_session : MemoryOp
  append_message : LlmMessage → MemoryOp
  extract_lessons : List LlmMessage → MemoryOp

-- `session_end` is the call of `onSessionEnd`, if there is one. The effects of the memory store are
-- there only where the agent has a client of it.
pub data Effect : Type 0 where
  audit : AuditEvent → Effect
  alert : Alert → Effect
  yields : Chunk → Effect
  wait_for_approval : WaitParams → Effect
  run_tool : ToolRequest → Effect
  execute_skill : SkillRequest → Effect
  ask_llm : List LlmMessage → List LlmTool → Effect
  memory : MemoryOp → Effect
  record_cost : (input_tokens output_tokens cost_usd : ℕ) → Effect
  session_end : String → Effect

-- the effects that run something outside: a container of the sandbox, or a tool of a skill
abbrev pub is_run : Effect → Bool
is_run (run_tool _) = true
is_run (execute_skill _) = true
is_run _ = false

abbrev pub is_audit : String → Effect → Bool
is_audit event_type (audit e) = e.event_type == event_type
is_audit event_type _ = false

-- requests to the language model
abbrev pub is_ask : Effect → Bool
is_ask (ask_llm _ _) = true
is_ask _ = false
