-- ===== src/Agent/Entry.antt =====
-- packages/agent-runtime/src/llm/agent-loop.ts: what `run` does before its loop. The gates on the
-- user's message, the history and the lessons that it loads, and the turn cap.
use Prim.Native.Char.{code}
use secure_claw.Base.{
  ℕ, zero, suc, String, ◌<>◌, Bool, not, ◌&&◌, Option, none, some, List, [], ◌∷◌, ◌++◌, map, ◌==◌,
  if◌then◌else◌, nat_eq, ltb, leb, first, non_empty,
}
use secure_claw.Base.Text.{slice_to, length_of}
use secure_claw.Base.Json.{num, str}
use secure_claw.Sanitizer.{is_critical, Runtime, InjectionScanResult}
use secure_claw.Sanitizer.Service.{Outcome, returns, throws}
use secure_claw.Session.Context.{SessionContext, LlmMessage, ToolCall, HarnessPatchPrompt}
use secure_claw.Agent.{AuditSeverity, Chunk, Effect, yields, session_end}
use secure_claw.Agent.Executor.{log, fire}
use secure_claw.Agent.Turn.{TurnEnv}

pub record CostSummary : Type 0 where
  pub cap_exceeded : Bool
  pub total_cost_usd : ℕ
  pub cap_usd : ℕ

pub record QuotaStatus : Type 0 where
  pub exceeded : Bool
  pub spent_usd : ℕ
  pub quota_usd : ℕ

-- `StoredMemoryMessage`; the tool calls are the outcome of parsing their JSON, if there is any.
pub record StoredMemoryMessage : Type 0 where
  pub role : String
  pub content : String
  pub tool_calls : Option (Outcome (List ToolCall))
  pub tool_call_id : String
  pub tool_name : String

pub record PriorMemory : Type 0 where
  pub messages : List StoredMemoryMessage
  pub lessons : List String
  pub patches : Outcome (List HarnessPatchPrompt)

-- The audit service, the memory store and the provider behind their clients. `to_fixed` shows an
-- amount with a number of digits; `parse_int` has no value for NaN and for a negative number.
pub record RunEnv : Type 0 where
  pub turn : TurnEnv
  pub runtime : Runtime
  pub get_cost_summary : String → Outcome CostSummary
  pub check_quota_exceeded : String → Outcome QuotaStatus
  pub max_turns_variable : Option String
  pub parse_int : String → Option ℕ
  pub to_fixed : ℕ → ℕ → String
  pub prior_memory : String → PriorMemory
  pub estimate_cost_usd : ℕ → ℕ → ℕ

-- `s.split("/")[0]`
unfoldable pub team_of : String → String
team_of String.[] = String.[]
team_of (String.◌∷◌ c s) =
    let rest = team_of s in if nat_eq (code c) 47 then String.[] else String.◌∷◌ c rest

-- the loop over the prior messages; an exception is `JSON.parse`'s
unfoldable pub load_messages :
    List StoredMemoryMessage → SessionContext → SessionContext × Option String
load_messages [] ctx = (ctx, none)
load_messages (m ∷ ms) ctx =
    if m.role == "user"
    then load_messages ms (record ctx { messages = ctx.messages ++ LlmMessage.user m.content ∷ [] })
    else if m.role == "assistant"
    then elim m.tool_calls [
      | some (throws message) ↦ (ctx, some message)
      | some (returns calls) ↦
          load_messages ms
            (record ctx { messages = ctx.messages ++ LlmMessage.assistant m.content calls ∷ [] })
      | none ↦
          load_messages ms
            (record ctx { messages = ctx.messages ++ LlmMessage.assistant m.content [] ∷ [] })
    ]
    else load_messages ms (
        if m.role == "tool"
        then record ctx {
          messages = ctx.messages ++ LlmMessage.tool m.content m.tool_call_id m.tool_name ∷ [];
        }
        else ctx)

take {ℓ} : {A : Type ℓ} → ℕ → List A → List A
take zero xs = []
take (suc n) [] = []
take (suc n) (x ∷ xs) = x ∷ take n xs

abbrev cut_patch : HarnessPatchPrompt → HarnessPatchPrompt
cut_patch p = record p {
  proposed_change =
      if ltb 500 (length_of p.proposed_change)
      then slice_to 500 p.proposed_change <> "..."
      else p.proposed_change;
}

-- the patches for the prompt: five at most, each cut after 500 characters
unfoldable pub shown_patches : Outcome (List HarnessPatchPrompt) → List HarnessPatchPrompt
unfolding take
shown_patches (throws message) = []
shown_patches (returns patches) = take 5 (map cut_patch patches)

module _ (env : RunEnv) where
  -- the lessons and the patches, after the messages
  abbrev with_lessons :
      PriorMemory → SessionContext × Option String → SessionContext × Option String
  with_lessons prior (loaded, some message) = (loaded, some message)
  with_lessons prior (loaded, none) = (
    record loaded {
      prior_lessons = if non_empty prior.lessons then prior.lessons else loaded.prior_lessons;
      active_patches = shown_patches prior.patches;
    },
    none,
  )

  -- the history that is loaded before the first message
  unfoldable pub load_memory : SessionContext → SessionContext × Option String
  unfolding load_messages shown_patches
  load_memory ctx =
      if env.turn.has_memory && not (non_empty ctx.messages)
      then with_lessons (env.prior_memory ctx.user_id)
          (load_messages (env.prior_memory ctx.user_id).messages ctx)
      else (ctx, none)

  unfoldable pub max_turns : ℕ
  max_turns = elim env.max_turns_variable [
    | none ↦ 20
    | some val ↦ elim (env.parse_int val) [
      | none ↦ 20
      | some n ↦ if leb 1 n && leb n 500 then n else 20
    ]
  ]

  -- what an injection in the user's message is reported by; the list is that of the effects of a
  -- rejection, and empty if the message passes
  unfoldable pub check_injection : String → InjectionScanResult → List Effect
  check_injection content scan =
      if is_critical scan.highest_severity && scan.is_suspicious
      then log "INJECTION_DETECTED"
            (("excerpt", str (slice_to 200 content)) ∷ ("source", str "user_input") ∷ [])
            AuditSeverity.critical
          ∷ fire env.turn.exec "INJECTION_DETECTED" (
              ("source", "user_input")
              ∷ ("excerpt", env.turn.exec.strip_vault_refs (slice_to 256 content))
              ∷ [])
        ++ yields (
            Chunk.injection_warning (slice_to 200 content)
              (elim (first scan.matches) [ none ↦ "unknown" | some m ↦ m.pattern_id ]))
          ∷ session_end "Injection detected in user input"
          ∷ []
      else []

  -- An audit service that cannot be reached blocks nothing.
  unfoldable pub check_cost_cap : Outcome CostSummary → List Effect
  check_cost_cap (throws message) = []
  check_cost_cap (returns summary) =
      if summary.cap_exceeded
      then log "COST_CAP_EXCEEDED"
          (("current_usd", num summary.total_cost_usd) ∷ ("cap_usd", num summary.cap_usd) ∷ [])
          AuditSeverity.warn
        ∷ yields (
            Chunk.failure "COST_CAP_EXCEEDED" (
              "Daily cost cap exceeded: $"
              <> (env.to_fixed 4 summary.total_cost_usd
                  <> (" / $" <> env.to_fixed 2 summary.cap_usd))))
        ∷ session_end "Daily cost cap exceeded"
        ∷ []
      else []

  unfoldable pub check_quota : String → Outcome QuotaStatus → List Effect
  check_quota team_id (throws message) = []
  check_quota team_id (returns quota_status) =
      if quota_status.exceeded
      then log "QUOTA_BREACH"
            (("team_id", str team_id)
              ∷ ("spent_usd", num quota_status.spent_usd)
              ∷ ("quota_usd", num quota_status.quota_usd)
              ∷ [])
            AuditSeverity.warn
          ∷ fire env.turn.exec "QUOTA_BREACH" (
              ("team_id", team_id)
              ∷ ("spent_usd", env.turn.exec.show quota_status.spent_usd)
              ∷ ("quota_usd", env.turn.exec.show quota_status.quota_usd)
              ∷ [])
        ++ yields (
            Chunk.failure "QUOTA_EXCEEDED"
              ("Team quota of $" <> (env.to_fixed 2 quota_status.quota_usd <> " USD exceeded")))
          ∷ session_end "Team quota exceeded"
          ∷ []
      else []

  abbrev pub or_next : List Effect → List Effect → List Effect
  or_next [] next = next
  or_next (e ∷ es) next = e ∷ es

  -- the three gates, in their order; empty if the message passes them all
  unfoldable pub gate : SessionContext → String → InjectionScanResult → List Effect
  unfolding check_injection check_cost_cap check_quota team_of
  gate ctx content scan = or_next (check_injection content scan) (
      or_next (check_cost_cap (env.get_cost_summary ctx.user_id))
        (check_quota (team_of ctx.user_id) (env.check_quota_exceeded (team_of ctx.user_id))))
