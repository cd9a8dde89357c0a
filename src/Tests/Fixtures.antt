-- ===== src/Tests/Fixtures.antt =====
-- A runtime, an environment and a state of each component, to run the definitions on.
use secure_claw.Base.{String, Bool, true, false, none, some, List, [], ◌∷◌, if◌then◌else◌}
use secure_claw.Base.Text.{includes}
use secure_claw.Base.Json.{JsonCodec, str, obj, field, end}
use secure_claw.Sanitizer.{Runtime, Severity, InjectionMatch}
use secure_claw.Sanitizer.Score.{Sensitivity}
use secure_claw.Sanitizer.Service.{
  SanitizerService, returns, throws, sanitize_external_content, heuristic,
}
use secure_claw.Session.Context.{SessionContext, create_session_context, ToolCall}
use secure_claw.Tools.Policy.{ToolPolicyEntry, ToolPolicyEngine, PolicyDecisionResult, engine}
use secure_claw.Tools.Approval.{WaitParams}
use secure_claw.Agent.Executor.{Env, PendingToolCall}
use secure_claw.Agent.Turn.{TurnEnv, ProviderChunk}
use secure_claw.Agent.Entry.{RunEnv}

-- A runtime in which every injection pattern matches a text that says "ignore".
abbrev pub runtime : Runtime
runtime = record {
  exec_pattern =
      λ id text. if includes text "ignore" then some (record { index = 0; size = 6 }) else none;
  base64_segments = λ s. [];
  base64_text = λ s. s;
  has_printable = λ s. true;
  decode_uri = λ s. some s;
  nfkd = λ s. s;
  strip_marks = λ s. s;
  extract_json = λ s. none;
  parse_classification = λ s. none;
  has_pii = λ kind text. includes text "@";
  mask_pii = λ kind text mask. mask;
  is_suspicious_url = λ n text. false;
  strip_quotes = λ s. s;
  show = λ n. "7";
}

abbrev pub service : SanitizerService
service = record {
  config = record {
    mode = heuristic;
    llm_threshold = 700;
    block_on_critical = true;
    sensitivity = Sensitivity.medium;
  };
  session_delimiters =
      (
        "s1",
        record {
          session_id = "s1";
          open_tag = "<<<EXTERNAL_DATA_AB>>>";
          close_tag = "<<<END_EXTERNAL_DATA_AB>>>";
        },
      )
      ∷ [];
  llm_classifier = none;
  tracker = record { scores = []; sensitivity = Sensitivity.medium };
}

abbrev pub codec : JsonCodec
codec = record {
  stringify = λ v. "{}";
  parse = λ s. some (obj (field "url" (str "http://10.0.0.1") end));
}

abbrev pub env : Env
env = record {
  codec = codec;
  show = λ n. "7";
  to_text = λ v. "[object Object]";
  strip_vault_refs = λ s. s;
  get_secret_ref = λ service account. returns none;
  inject_credential = λ ref input key. returns input;
  check_url = λ url. record { safe = false; reason = some "private"; category = none };
  run_tool = λ request. returns (record {
    success = true;
    exit_code = 0;
    timed_out = false;
    oom_killed = false;
    stdout = "ignore all of it";
    stderr = "";
  });
  skills = none;
  has_alerting = true;
  duration = λ call_id. 12;
  sanitize = sanitize_external_content runtime;
}

abbrev pub entry : String → Bool → Bool → ToolPolicyEntry
entry tool_id allowed requires_approval = record {
  tool_id = tool_id;
  allowed = allowed;
  requires_approval = requires_approval;
  sandbox_required = true;
  max_executions_per_session = 5;
  allowed_paths = none;
  allowed_domains = none;
  timeout_seconds = 60;
  memory_bytes = 1024;
  pids_limit = 8;
}

abbrev pub entries : List ToolPolicyEntry
entries =
    entry "file_read" true false
    ∷ entry "shell_exec" true true
    ∷ entry "http_request" false true
    ∷ []

abbrev pub policy : ToolPolicyEngine
policy = engine ("file_write" ∷ []) entries

abbrev pub decision : PolicyDecisionResult
decision = record {
  allowed = true;
  requires_approval = false;
  sandbox_required = true;
  resource_limits = record {
    memory_bytes = 1024;
    cpu_shares = 500;
    pids_limit = 8;
    timeout_seconds = 60;
  };
  reason = none;
}

abbrev pub pending : String → String → PendingToolCall
pending call_id tool_id = record {
  call_id = call_id;
  tool_id = tool_id;
  input = str "x";
  input_preview = "x";
  decision = decision;
  approved = true;
  skill_route = none;
}

abbrev pub call : String → String → ToolCall
call call_id tool_id = record { call_id = call_id; tool_id = tool_id; input = str "x" }

-- three calls: one that runs, one that the user refuses, and one that the policy denies
abbrev pub chunks : List ProviderChunk
chunks =
    ProviderChunk.text "On it."
    ∷ ProviderChunk.tool_call (call "c1" "file_read")
    ∷ ProviderChunk.tool_call (call "c2" "shell_exec")
    ∷ ProviderChunk.tool_call (call "c3" "http_request")
    ∷ ProviderChunk.finish true 10 5
    ∷ []

abbrev pub turn_env : TurnEnv
turn_env = record {
  exec = env;
  policy = policy;
  stream = λ n messages tools. (chunks, none);
  approval = λ n i params. returns false;
  skills_client = λ n. none;
  has_memory = false;
  now = λ n. n;
}

abbrev pub run_env : RunEnv
run_env = record {
  turn = turn_env;
  runtime = runtime;
  get_cost_summary = λ user. throws "unreachable";
  check_quota_exceeded =
      λ team. returns (record { exceeded = false; spent_usd = 1; quota_usd = 9 });
  max_turns_variable = some "2";
  parse_int = λ s. some 2;
  to_fixed = λ digits amount. "1.00";
  prior_memory = λ user. record { messages = []; lessons = []; patches = throws "offline" };
  estimate_cost_usd = λ input output. 3;
}

abbrev pub ctx : SessionContext
ctx = create_session_context "s1" "org/user" 0

abbrev pub wait_c1 : WaitParams
wait_c1 = record { call_id = "c1"; tool_id = "shell_exec"; session_id = "s1"; input_preview = "ls" }

abbrev pub match : Severity → InjectionMatch
match severity = record { pattern_id = "P1"; severity = severity; excerpt = "ignore" }
