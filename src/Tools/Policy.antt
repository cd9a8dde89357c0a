-- ===== src/Tools/Policy.antt =====
-- packages/agent-runtime/src/tools/policy-engine.ts: the deny-by-default tool policy.
pub mod Laws
use secure_claw.Base.{
  ℕ, String, ◌<>◌, Bool, true, false, ◌&&◌, ◌||◌, Option, none, some, List, [], ◌∷◌, map, ◌==◌,
  if◌then◌else◌, any, keep,
}
use secure_claw.Base.Dict
use secure_claw.Base.Dict.{Dict}

-- `ToolPolicyEntry`. Its integers are not negative here.
pub record ToolPolicyEntry : Type 0 where
  pub tool_id : String
  pub allowed : Bool
  pub requires_approval : Bool
  pub sandbox_required : Bool
  pub max_executions_per_session : ℕ
  pub allowed_paths : Option (List String)
  pub allowed_domains : Option (List String)
  pub timeout_seconds : ℕ
  pub memory_bytes : ℕ
  pub pids_limit : ℕ

-- `cpu_shares` is counted in thousandths of a CPU: the source writes 0.5 and 0.
pub record ResourceLimits : Type 0 where
  pub memory_bytes : ℕ
  pub cpu_shares : ℕ
  pub pids_limit : ℕ
  pub timeout_seconds : ℕ

pub record PolicyDecisionResult : Type 0 where
  pub allowed : Bool
  pub requires_approval : Bool
  pub sandbox_required : Bool
  pub resource_limits : ResourceLimits
  pub reason : Option String

-- The only exception that `evaluate` throws.
pub record PolicyDeniedError : Type 0 where
  pub tool_id : String
  pub reason : String

pub data Evaluation : Type 0 where
  ok : PolicyDecisionResult → Evaluation
  denied : PolicyDeniedError → Evaluation

pub record ToolPolicyEngine : Type 0 where
  pub allowlist : Dict ToolPolicyEntry
  pub human_approval_tools : List String

-- `new Map(entries)`, from the entries that are set already.
unfoldable pub map_entries : Dict ToolPolicyEntry → List ToolPolicyEntry → Dict ToolPolicyEntry
map_entries m [] = m
map_entries m (p ∷ ps) = map_entries (Dict.set m p.tool_id p) ps

unfoldable pub engine : List String → List ToolPolicyEntry → ToolPolicyEngine
unfolding map_entries
engine human_approval_required_for tool_allowlist = record {
  allowlist = map_entries [] tool_allowlist;
  human_approval_tools = human_approval_required_for;
}

-- `Set.has`
abbrev pub has : List String → String → Bool
has set x = any (λ y. y == x) set

abbrev pub deny_reason : String
deny_reason = "Tool is not in the allowlist. Deny-by-default policy."

-- `evaluate`, from the policy that the map holds for the tool.
unfoldable pub decide : List String → String → Option ToolPolicyEntry → Evaluation
decide human_approval_tools tool_id none =
    denied (record { tool_id = tool_id; reason = deny_reason })
decide human_approval_tools tool_id (some policy) =
    if policy.allowed
    then ok (record {
      allowed = true;
      requires_approval = policy.requires_approval || has human_approval_tools tool_id;
      sandbox_required = policy.sandbox_required;
      resource_limits = record {
        memory_bytes = policy.memory_bytes;
        cpu_shares = 500;
        pids_limit = policy.pids_limit;
        timeout_seconds = policy.timeout_seconds;
      };
      reason = none;
    })
    else denied (record { tool_id = tool_id; reason = deny_reason })

unfoldable pub evaluate : ToolPolicyEngine → String → Evaluation
unfolding decide
evaluate e tool_id = decide e.human_approval_tools tool_id (Dict.get e.allowlist tool_id)

unfoldable pub is_allowed : ToolPolicyEngine → String → Bool
is_allowed e tool_id = elim (Dict.get e.allowlist tool_id) [
  | none ↦ false
  | some policy ↦ policy.allowed
]

unfoldable pub get_allowed_tool_ids : ToolPolicyEngine → List String
get_allowed_tool_ids e = map (λ i. i.0) (keep (λ i. i.1.allowed) e.allowlist)
