-- ===== src/Lib.antt =====
-- SecureClaw: the path of a user's message through the agent runtime (packages/agent-runtime), the
-- input sanitizer (packages/input-sanitizer), the vault (packages/credential-vault), the audit
-- system (packages/audit-system) and the memory store (packages/memory-store).
--
-- A message of the user goes to `AgentLoop.run` (packages/agent-runtime/src/llm/agent-loop.ts). The
-- sanitizer scans it; a critical injection, a cost cap or a quota that is exceeded ends the run.
-- Otherwise the loop asks the language model, turn after turn: every tool call in the model's
-- stream is checked by the policy engine, waits for the user where the policy wants an approval,
-- and is executed in the sandbox or by a skill; its output goes through the sanitizer before the
-- model sees it, and calls and results are written to the session's history.
--
--   Tools.Policy       packages/agent-runtime/src/tools/policy-engine.ts: `ToolPolicyEngine`.
--   Tools.Approval     packages/agent-runtime/src/tools/approval-gate.ts: `ApprovalGate`. A promise
--                      and its timer are a ticket; what happens to a gate over time is a sequence
--                      of steps in any order (Tools/Approval/Runs).
--   Session.Context    packages/agent-runtime/src/session/session-context.ts.
--   Session.Manager    packages/agent-runtime/src/session/session-manager.ts, over the gate and the
--                      sanitizer that it shares with the loop.
--   Sanitizer.Scan     heuristic/injection.detector.ts, heuristic/injection.patterns.ts and
--                      encoding/decode-layers.ts of packages/input-sanitizer/src.
--   Sanitizer.Score    session/turn-score-tracker.ts.
--   Sanitizer.Classifier  llm/llm-classifier.ts and llm/classifier.prompts.ts.
--   Sanitizer.Tagging  content-type/content-tagger.ts and delimiter/session-delimiter.ts.
--   Sanitizer.Guardrail  output/output-guardrail.ts and heuristic/pii.detector.ts.
--   Sanitizer.Service  sanitizer.ts: `SanitizerService`; Sanitizer.State: its configuration and state.
--   Agent.Executor     packages/agent-runtime/src/llm/tool-executor.ts: the preparation of a call's
--                      input; Agent.Executor.Single: its URL check, run and output.
--   Agent.Turn         packages/agent-runtime/src/llm/agent-loop.ts: a turn's stream; Agent.Turn.Finish:
--                      its approvals, its execution and its history; Agent.Loop: the skills, the
--                      tools on offer and the turn cap; Agent.Entry: the gates and the history
--                      before the loop; Agent.Run: the whole run.
--   Vault              packages/credential-vault/src/ref-store.ts and vault.service.ts; Vault.Inject:
--                      injector.ts and the placeholders of
--                      packages/shared/src/schemas/credential.schema.ts.
--   Url                packages/input-sanitizer/src/url/url-safety.ts, which the executor asks before a
--                      call of http_request; Url.Text: its string functions and regular expressions.
--   Audit              packages/audit-system/src/database/schema.ts: the tables; Audit.Rules:
--                      alert-rules.ts; Audit.Events, Audit.Costs, Audit.Teams, Audit.Quota and
--                      Audit.Report: audit.service.ts; Audit.Handlers: grpc/audit.impl.ts; Audit.Client:
--                      packages/agent-runtime/src/grpc/clients/audit.client.ts, over which the gates of a
--                      run ask for costs and quotas. What happens to the tables over time is a sequence
--                      of calls in any order (Audit/Runs).
--   Evolution          packages/agent-runtime/src/harness-evolution/evolution-service.ts: the patches of
--                      the harness; Evolution.Validate: `validatePatch`; Evolution.Lessons: the patches
--                      made from the lessons of a session.
--   Memory             packages/memory-store/src/db/schema.ts and memory.service.ts: sessions, messages,
--                      lessons and patches as lists of rows. What happens to them over time is a
--                      sequence of calls in any order, in which a message is appended to a session of
--                      its user (Memory/Runs). Embeddings and the search by words are left out; the
--                      agent still takes what the store returns as a parameter.
--   Base               lists, texts, JavaScript's `Map` and JSON values. Tests: examples.
--
-- What a component does to the outside (audit events, alerts, chunks for the user, requests to
-- the model, runs of tools, records in the memory store) is a list of effects in the order in
-- which they happen. State is passed on explicitly. An exception is a value of `Outcome`, or the
-- text of its message. Regular expressions other than those of url-safety.ts, codecs, the
-- provider, the sandbox, the skills engine, the vault as the executor calls it, the audit service
-- as the agent calls it, the memory store, the URL parser and the lookup of names are parameters
-- (`Runtime`, `Env`, `TurnEnv`, `RunEnv`, `AuditEnv`, `UrlEnv`, `EvolutionEnv`), of which nothing
-- is assumed but what a theorem names: that the database sorts by time and that `JSON.parse`
-- reads back what `JSON.stringify` wrote. `with_audit` and `with_url_check` put the modelled
-- audit service and URL check in their places.
--
-- Numbers are native natural numbers. A confidence and a share of a CPU are counted in thousandths;
-- costs, caps and quotas are whole numbers of a small unit, and a time is in milliseconds. The
-- source has floating-point numbers there: its sums of costs may be rounded, and a total that is
-- within a rounding of a cap may fall on its other side; sums are exact here. A confidence that is
-- not a number, which the source's own scores never are, has no counterpart.
-- `loop` runs on fuel: one for each turn and one for the pass that meets the cap, so that a number
-- above `max_turns` is enough.
--
-- Not modelled: the backup of the vault and of the audit database, the analysis of sessions that
-- generates patches, the skills engine, the sandbox, alerting, the gateway, the channels and the
-- command line; the text of the system prompt, the schemas of tools, tracing spans and clocks. The
-- calls of a turn, which the source starts together, run one after the other here.
pub mod Base
pub mod Tools
pub mod Sanitizer
pub mod Session
pub mod Agent
pub mod Vault
pub mod Audit
pub mod Url
pub mod Evolution
pub mod Memory
mod Tests
