-- ===== src/Url/Runs.antt =====
-- The URL check as the tool executor uses it.
use secure_claw.Base.{◌≡◌, sym, ◌∙◌, true, some, List, arith, any, ◌==◌, inl, inr}
use secure_claw.Base.Json.{Json}
use secure_claw.Sanitizer.Service.{SanitizerService}
use secure_claw.Session.Context.{SessionContext}
use secure_claw.Agent.{Effect, is_run}
use secure_claw.Agent.Executor.{Env, PendingToolCall, prepare_input, url_of}
use secure_claw.Agent.Executor.Single.{execute_single}
use secure_claw.Agent.Executor.Laws.{RunsOnRecord, execute_single-RunsOnRecord}
use secure_claw.Url.{UrlEnv, check_url_safety_resolved}
use secure_claw.Url.Laws.{is_outer_url, check_url_safety_resolved-safe}

-- the executor with the modelled check
abbrev pub with_url_check : UrlEnv → Env → Env
with_url_check url_env env = record env { check_url = check_url_safety_resolved url_env }

outer_if_run :
    (url_env : UrlEnv) (env : Env) (ctx : SessionContext) (pc : PendingToolCall) (es : List Effect)
    → RunsOnRecord (with_url_check url_env env) ctx pc es
    → (pc.tool_id == "http_request") ≡ true
    → any is_run es ≡ true
    → (json : Json) × (env.codec.parse (prepare_input (with_url_check url_env env) pc) ≡ some json)
      × (is_outer_url url_env (url_env.parse_url (url_of (with_url_check url_env env) json)) ≡ true)
outer_if_run url_env env ctx pc es (inl quiet) http runs = absurd (ground arith)
outer_if_run url_env env ctx pc es
      (inr (call, run, rest, e, logged, is_one, others, approved, safe)) http runs =
    let (json, parsed, passed) = safe http in
    (
      json,
      parsed,
      sym (check_url_safety_resolved-safe url_env (url_of (with_url_check url_env env) json))
          ∙ passed,
    )

-- With the modelled check, a call of http_request is run only if its input is JSON whose URL is
-- outside: it can be parsed, its host is no metadata service, private address or local name, passes
-- the operator's lists, and is an address or resolves to addresses that are all outside.
pub http_request_runs_outside :
    (url_env : UrlEnv) (env : Env) (ctx : SessionContext) (pc : PendingToolCall)
    (s : SanitizerService)
    → (pc.tool_id == "http_request") ≡ true
    → any is_run (execute_single (with_url_check url_env env) ctx pc s).1 ≡ true
    → (json : Json) × (env.codec.parse (prepare_input (with_url_check url_env env) pc) ≡ some json)
      × (is_outer_url url_env (url_env.parse_url (url_of (with_url_check url_env env) json)) ≡ true)
http_request_runs_outside url_env env ctx pc s http runs =
    outer_if_run url_env env ctx pc (execute_single (with_url_check url_env env) ctx pc s).1
      (execute_single-RunsOnRecord (with_url_check url_env env) ctx pc s) http runs
