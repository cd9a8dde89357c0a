-- ===== src/Session/Context.antt =====
-- packages/agent-runtime/src/session/session-context.ts. Costs are whole numbers of a small unit;
-- the provider object and the delimiters are kept elsewhere (the provider is an argument of the
-- agent loop, the delimiters are in the sanitizer).
use secure_claw.Base.{ℕ, ◌+◌, String, Bool, false, List, [], ◌∷◌, ◌++◌}
use secure_claw.Base.Json.{Json}

pub record ToolCall : Type 0 where
  pub call_id : String
  pub tool_id : String
  pub input : Json

-- `LLMMessage`, by role
pub data LlmMessage : Type 0 where
  user : String → LlmMessage
  assistant : String → List ToolCall → LlmMessage
  tool : (content tool_call_id tool_name : String) → LlmMessage

pub data Status : Type 0 where
  active idle awaiting_approval terminated error : Status

pub record HarnessPatchPrompt : Type 0 where
  pub id : String
  pub proposed_change : String
  pub confidence : ℕ

pub record SessionContext : Type 0 where
  pub session_id : String
  pub user_id : String
  pub created_at : ℕ
  pub messages : List LlmMessage
  pub total_input_tokens : ℕ
  pub total_output_tokens : ℕ
  pub total_cost_usd : ℕ
  pub tool_call_count : ℕ
  pub status : Status
  pub last_activity_at : ℕ
  pub prior_lessons : List String
  pub active_patches : List HarnessPatchPrompt
  pub had_tool_failure : Bool

unfoldable pub create_session_context : String → String → ℕ → SessionContext
create_session_context session_id user_id now = record {
  session_id = session_id;
  user_id = user_id;
  created_at = now;
  messages = [];
  total_input_tokens = 0;
  total_output_tokens = 0;
  total_cost_usd = 0;
  tool_call_count = 0;
  status = active;
  last_activity_at = now;
  prior_lessons = [];
  active_patches = [];
  had_tool_failure = false;
}

unfoldable pub add_user_message : String → ℕ → SessionContext → SessionContext
add_user_message content now ctx = record ctx {
  messages = ctx.messages ++ user content ∷ [];
  last_activity_at = now;
}

-- An absent list of tool calls and an empty one give the same message.
unfoldable pub add_assistant_message : String → List ToolCall → ℕ → SessionContext → SessionContext
add_assistant_message content tool_calls now ctx = record ctx {
  messages = ctx.messages ++ assistant content tool_calls ∷ [];
  last_activity_at = now;
}

unfoldable pub add_tool_result : String → String → String → ℕ → SessionContext → SessionContext
add_tool_result tool_call_id tool_name result now ctx = record ctx {
  messages = ctx.messages ++ tool result tool_call_id tool_name ∷ [];
  last_activity_at = now;
}

unfoldable pub record_usage : ℕ → ℕ → ℕ → SessionContext → SessionContext
record_usage input_tokens output_tokens cost_usd ctx = record ctx {
  total_input_tokens = ctx.total_input_tokens + input_tokens;
  total_output_tokens = ctx.total_output_tokens + output_tokens;
  total_cost_usd = ctx.total_cost_usd + cost_usd;
}
