-- ===== src/Agent/Loop.antt =====
-- packages/agent-runtime/src/llm/agent-loop.ts, the `while` loop: the skill tools, the tools that
-- the model is offered, a whole turn, and the turn cap. The fuel of `loop` is one for each turn and
-- one for the pass that meets the cap.
pub mod Bounds
use secure_claw.Base.{
  ℕ, zero, suc, ◌+◌, String, ◌<>◌, Bool, true, false, not, ◌&&◌, Option, none, some, List, [], ◌∷◌,
  ◌++◌, map, ◌==◌, if◌then◌else◌, ltb, any, keep, length,
}
use secure_claw.Base.Dict
use secure_claw.Base.Dict.{Dict}
use secure_claw.Base.Json.{num, str}
use secure_claw.Sanitizer.Service.{SanitizerService, Outcome, returns, throws}
use secure_claw.Session.Context.{SessionContext}
use secure_claw.Tools.Policy.{is_allowed}
use secure_claw.Agent.{AuditSeverity, Chunk, Effect, LlmTool, yields, ask_llm}
use secure_claw.Agent.Executor.{SkillToolRoute, ToolCallResult, log, fire}
use secure_claw.Agent.Turn.{
  TurnEnv, Turn, SkillTool, SkillManifest, SkillSummary, SkillsClient, on_chunks,
}
use secure_claw.Agent.Turn.Finish.{finish_turn}

-- the variables of the loop
pub record LoopState : Type 0 where
  pub ctx : SessionContext
  pub sanitizer : SanitizerService
  pub total_input_tokens : ℕ
  pub total_output_tokens : ℕ
  pub tool_calls_executed : ℕ
  pub turn_count : ℕ
  pub continue_loop : Bool
  pub effects : List Effect

pub data Ended : Type 0 where
  finished out_of_fuel : Ended
  threw : String → Ended

-- `TOOL_DEFINITIONS`, without the schemas
abbrev pub tool_definitions : List LlmTool
tool_definitions =
    record {
      id = "shell_exec";
      description =
          "Execute a shell command in a sandboxed gVisor container. Network access disabled by default.";
    }
    ∷ record {
      id = "http_request";
      description =
          "Make an HTTP request from a sandboxed container. Allowed domains must be specified.";
    }
    ∷ record {
      id = "file_read";
      description = "Read the contents of a file. Path must be within the allowed workspace.";
    }
    ∷ record {
      id = "file_write";
      description = "Write content to a file. Path must be within the allowed workspace.";
    }
    ∷ []

-- `skillRoutes` and `skillToolDefs`
abbrev Skills : Type 0
Skills = Dict SkillToolRoute × List LlmTool

-- the loop over `manifest.tools`
unfoldable pub add_skill_tools : SkillSummary → List String → List SkillTool → Skills → Skills
add_skill_tools summary refs [] skills = skills
add_skill_tools summary refs (t ∷ ts) (routes, defs) = add_skill_tools summary refs ts (
  Dict.set routes t.tool_id (record {
    skill_id = summary.id;
    skill_version = summary.version;
    requires_approval = t.requires_approval;
    credential_refs = refs;
  }),
  defs
      ++ record {
        id = t.tool_id;
        description = "[Skill: " <> (summary.id <> ("] " <> t.description));
      }
        ∷ [],
)

-- the loop over the summaries; an exception ends it and leaves what was loaded before
unfoldable pub add_skills :
    (String → String → Outcome (Option (Outcome SkillManifest)))
    → List SkillSummary
    → Skills
    → Skills
unfolding add_skill_tools
add_skills get_skill [] skills = skills
add_skills get_skill (summary ∷ summaries) skills = elim (get_skill summary.id summary.version) [
  | throws message ↦ skills
  | returns none ↦ add_skills get_skill summaries skills
  | returns (some (throws message)) ↦ skills
  | returns (some (returns manifest)) ↦
      add_skills get_skill summaries
        (add_skill_tools summary manifest.credential_refs manifest.tools skills)
]

unfoldable pub load_skills : Option SkillsClient → Skills
unfolding add_skills
load_skills none = ([], [])
load_skills (some client) = elim client.list_skills [
  | throws message ↦ ([], [])
  | returns summaries ↦ add_skills client.get_skill summaries ([], [])
]

abbrev has_id : List LlmTool → String → Bool
has_id tools id = any (λ t. t.id == id) tools

module _ (env : TurnEnv) where
  -- the built-in tools that the policy allows, and the skill tools that do not shadow them
  unfoldable pub allowed_tools : List LlmTool → List LlmTool
  allowed_tools skill_tool_defs =
      let builtins = keep (λ t. is_allowed env.policy t.id) tool_definitions in
      builtins ++ keep (λ t. not (has_id builtins t.id)) skill_tool_defs

  abbrev pub turn_start : LoopState → List LlmTool → Turn
  turn_start st tools = record {
    ctx = st.ctx;
    accumulated_text = "";
    had_tool_calls_this_turn = false;
    tool_calls_this_turn = [];
    tool_results_buffer = [];
    prepared_calls = [];
    approval_promises = [];
    total_input_tokens = st.total_input_tokens;
    total_output_tokens = st.total_output_tokens;
    continue_loop = st.continue_loop;
    effects = st.effects ++ ask_llm st.ctx.messages tools ∷ [];
  }

  -- the state after a turn, from the turn's variables
  unfoldable pub turn_end : LoopState → Turn → SanitizerService → ℕ → LoopState
  turn_end st turn sanitizer executed = record {
    ctx = turn.ctx;
    sanitizer = sanitizer;
    total_input_tokens = turn.total_input_tokens;
    total_output_tokens = turn.total_output_tokens;
    tool_calls_executed = st.tool_calls_executed + executed;
    turn_count = st.turn_count;
    continue_loop = turn.continue_loop;
    effects = turn.effects;
  }

  -- The calls are executed only if the stream has not thrown.
  unfoldable pub after_stream : LoopState → Turn → Option String → LoopState × Option String
  unfolding turn_end
  after_stream st turn (some message) = (turn_end st turn st.sanitizer 0, some message)
  after_stream st turn none =
      let (turn', sanitizer, results, thrown) =
        finish_turn env (env.now st.turn_count) turn st.sanitizer in
      (turn_end st turn' sanitizer (length results), thrown)

  -- the body of the loop, after the turn is counted and found to be within the cap
  unfoldable pub run_turn : LoopState → LoopState × Option String
  unfolding after_stream allowed_tools
  run_turn st =
      let skills = load_skills (env.skills_client st.turn_count) in
      let tools = allowed_tools skills.1 in
      let stream = env.stream st.turn_count st.ctx.messages tools in
      after_stream st (on_chunks env st.turn_count skills.0 stream.0 (turn_start st tools)) stream.1

  -- the branch of the turn cap
  unfoldable pub cap_turns : ℕ → LoopState → LoopState
  cap_turns max_turns st = record st {
    effects =
        st.effects
        ++ log "POLICY_DENIED"
            (("reason", str "agent_turn_cap_exceeded") ∷ ("max_turns", num max_turns) ∷ [])
            AuditSeverity.warn
          ∷ fire env.exec "POLICY_DENIED" (("reason", "turn_cap_exceeded") ∷ [])
        ++ yields (
            Chunk.failure "TURN_CAP_EXCEEDED" (
              "Agent stopped: maximum "
              <> (env.exec.show max_turns
                  <> " turns per session reached (set AGENT_MAX_TURNS_PER_SESSION to adjust)")))
          ∷ [];
  }

  -- `turnCount++`
  abbrev pub count_turn : LoopState → LoopState
  count_turn st = record st { turn_count = suc st.turn_count }

  -- an exception of a turn ends the loop
  unfoldable pub unless_thrown : LoopState × Option String → LoopState × Ended → LoopState × Ended
  unless_thrown (st, some message) rest = (st, threw message)
  unless_thrown (st, none) rest = rest

  unfoldable pub loop : ℕ → ℕ → LoopState → LoopState × Ended
  unfolding run_turn cap_turns unless_thrown
  loop max_turns zero st = (st, out_of_fuel)
  loop max_turns (suc fuel) st =
      let turn = run_turn (count_turn st) in
      let rest = loop max_turns fuel turn.0 in
      if not st.continue_loop
      then (st, finished)
      else if ltb max_turns (suc st.turn_count)
      then (cap_turns max_turns (count_turn st), finished)
      else unless_thrown turn rest
