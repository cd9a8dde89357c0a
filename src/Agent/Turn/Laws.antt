-- ===== src/Agent/Turn/Laws.antt =====
-- Which of the model's tool calls a turn goes on to execute.
use secure_claw.Base.{
  ℕ, String, ◌≡◌, refl, Bool, true, false, ◌&&◌, List, [], ◌∷◌, ◌++◌, arith, ◌==◌, any, any-append,
  any-imp, any-left, any-last, ◌∙◌, All, All-snoc, All-imp, if_cases, Bool-cases, inl, inr, eq_iff,
  eq_refl,
}
use secure_claw.Base.Dict.{Dict}
use secure_claw.Session.Context.{ToolCall}
use secure_claw.Tools.Policy.{Evaluation, ok, denied, evaluate}
use secure_claw.Agent.Executor.{SkillToolRoute, PendingToolCall}
use secure_claw.Agent.Turn.{
  TurnEnv, Turn, ProviderChunk, PreparedToolCall, ApprovalPromise, ToolAnswer, on_chunk, on_chunks,
  on_tool_call, refuse, request_approval, announce, prepare,
}
use secure_claw.Agent.Turn.Finish.{
  is_granted, on_decision, await_approvals, is_denied_answer, is_approved, pending_call,
  pending_calls,
}

-- the approval that a call with this id and tool waits for
abbrev pub is_for : String → String → ApprovalPromise → Bool
is_for call_id tool_id ap = (ap.call_id == call_id) && (ap.tool_id == tool_id)

-- Allowed by the policy and, where the policy wants an approval, with one that was asked for this
-- call, and none under its id refused.
abbrev pub Cleared : TurnEnv → List ApprovalPromise → PendingToolCall → Type 0
Cleared env aps c =
    (evaluate env.policy c.tool_id ≡ ok c.decision)
    × (c.decision.requires_approval ≡ true
        → (any (is_for c.call_id c.tool_id) aps ≡ true)
          × All (λ ap. (ap.call_id == c.call_id) ≡ true → is_granted ap ≡ true) aps)

abbrev Checked : TurnEnv → List ApprovalPromise → PreparedToolCall → Type 0
Checked env aps pc =
    (evaluate env.policy pc.tool_id ≡ ok pc.decision)
    × (pc.decision.requires_approval ≡ true → any (is_for pc.call_id pc.tool_id) aps ≡ true)

module _ (env : TurnEnv) (n : ℕ) (routes : Dict SkillToolRoute) where
  abbrev AllChecked : Turn → Type 0
  AllChecked turn = All (Checked env turn.approval_promises) turn.prepared_calls

  Checked-append :
      (aps more : List ApprovalPromise) (pc : PreparedToolCall)
      → Checked env aps pc
      → Checked env (aps ++ more) pc
  Checked-append aps more pc h =
      (h.0, λ r. ground (arith, h.1 r, any-append (is_for pc.call_id pc.tool_id) aps more))

  asked_last :
      (aps : List ApprovalPromise) (ap : ApprovalPromise)
      → any (is_for ap.call_id ap.tool_id) (aps ++ ap ∷ []) ≡ true
  asked_last aps ap = ground (
    arith,
    any-append (is_for ap.call_id ap.tool_id) aps (ap ∷ []),
    eq_refl ap.call_id,
    eq_refl ap.tool_id,
  )

  on_tool_call-AllChecked :
      (call : ToolCall) (e : Evaluation) (turn : Turn)
      → evaluate env.policy call.tool_id ≡ e
      → AllChecked turn
      → AllChecked (on_tool_call env n routes call e turn)
  unfolding on_tool_call refuse request_approval announce prepare
  on_tool_call-AllChecked call (denied err) turn e h = h
  on_tool_call-AllChecked call (ok decision) turn e h =
      if_cases {A = Turn} (λ t. AllChecked (prepare env n routes call decision t))
        decision.requires_approval
        (λ wanted.
          All-snoc _ turn.prepared_calls
            (All-imp turn.prepared_calls (λ pc. Checked-append turn.approval_promises _ pc) h)
            (e, λ r. asked_last turn.approval_promises _))
        (λ unwanted.
          All-snoc _ turn.prepared_calls h (e, λ r. absurd (ground (arith, r, unwanted))))

  on_chunk-AllChecked :
      (chunk : ProviderChunk) (turn : Turn)
      → AllChecked turn
      → AllChecked (on_chunk env n routes chunk turn)
  unfolding on_chunk
  on_chunk-AllChecked (ProviderChunk.text delta) turn h = h
  on_chunk-AllChecked (ProviderChunk.tool_call call) turn h =
      on_tool_call-AllChecked call _ turn refl h
  on_chunk-AllChecked (ProviderChunk.finish tool_use i o) turn h = h
  on_chunk-AllChecked (ProviderChunk.error message) turn h = h

  on_chunks-AllChecked :
      (chunks : List ProviderChunk) (turn : Turn)
      → AllChecked turn
      → AllChecked (on_chunks env n routes chunks turn)
  unfolding on_chunks
  on_chunks-AllChecked [] turn h = h
  on_chunks-AllChecked (chunk ∷ chunks) turn h =
      on_chunks-AllChecked chunks _ (on_chunk-AllChecked chunk turn h)

-- What the loop over the approvals leaves as it was.
abbrev pub SameCalls : Turn → Turn → Type 0
SameCalls before after =
    (after.prepared_calls ≡ before.prepared_calls)
    × (after.approval_promises ≡ before.approval_promises)
    × (after.tool_calls_this_turn ≡ before.tool_calls_this_turn)
    × (after.accumulated_text ≡ before.accumulated_text)
    × (after.ctx.messages ≡ before.ctx.messages)

on_decision-SameCalls :
    (ap : ApprovalPromise) (b : Bool) (turn : Turn) → SameCalls turn (on_decision ap b turn)
unfolding on_decision
on_decision-SameCalls ap true turn = (refl, refl, refl, refl, refl)
on_decision-SameCalls ap false turn = (refl, refl, refl, refl, refl)

pub await-SameCalls :
    (aps : List ApprovalPromise) (turn : Turn) → SameCalls turn (await_approvals aps turn)
unfolding await_approvals
await-SameCalls [] turn = (refl, refl, refl, refl, refl)
await-SameCalls (ap ∷ aps) turn =
    let rest = await-SameCalls aps (on_decision ap (is_granted ap) turn) in
    let one = on_decision-SameCalls ap (is_granted ap) turn in
    (rest.0 ∙ one.0, rest.1 ∙ one.1, rest.2 ∙ one.2, rest.3 ∙ one.3, rest.4 ∙ one.4)

on_decision-keeps :
    (p : ToolAnswer → Bool) (ap : ApprovalPromise) (b : Bool) (turn : Turn)
    → any p turn.tool_results_buffer ≡ true
    → any p (on_decision ap b turn).tool_results_buffer ≡ true
unfolding on_decision
on_decision-keeps p ap true turn h = h
on_decision-keeps p ap false turn h = any-left p turn.tool_results_buffer _ h

pub await-keeps :
    (p : ToolAnswer → Bool) (aps : List ApprovalPromise) (turn : Turn)
    → any p turn.tool_results_buffer ≡ true
    → any p (await_approvals aps turn).tool_results_buffer ≡ true
unfolding await_approvals
await-keeps p [] turn h = h
await-keeps p (ap ∷ aps) turn h =
    await-keeps p aps _ (on_decision-keeps p ap (is_granted ap) turn h)

abbrev Recorded : Turn → ApprovalPromise → Type 0
Recorded turn ap =
    is_granted ap ≡ false → any (is_denied_answer ap.call_id) turn.tool_results_buffer ≡ true

on_decision-denied :
    (ap : ApprovalPromise) (b : Bool) (turn : Turn)
    → b ≡ false
    → any (is_denied_answer ap.call_id) (on_decision ap b turn).tool_results_buffer ≡ true
unfolding on_decision
on_decision-denied ap true turn h = absurd (ground arith)
on_decision-denied ap false turn h =
    any-last (is_denied_answer ap.call_id) turn.tool_results_buffer
      (ground (arith, eq_refl ap.call_id))

-- A refusal leaves a denial for its call.
await-Recorded :
    (aps : List ApprovalPromise) (turn : Turn) → All (Recorded (await_approvals aps turn)) aps
unfolding await_approvals
await-Recorded [] turn = tt
await-Recorded (ap ∷ aps) turn = (
  λ refused.
      await-keeps (is_denied_answer ap.call_id) aps _
        (on_decision-denied ap (is_granted ap) turn refused),
  await-Recorded aps _,
)

granted_if_undenied :
    (turn : Turn) (call_id : String) (ap : ApprovalPromise)
    → any (is_denied_answer call_id) turn.tool_results_buffer ≡ false
    → Recorded turn ap
    → (ap.call_id == call_id) ≡ true
    → is_granted ap ≡ true
granted_if_undenied turn call_id ap undenied recorded same = elim (Bool-cases (is_granted ap)) [
  | inl granted ↦ granted
  | inr refused ↦
      let same_id : ap.call_id ≡ call_id = ground (arith, eq_iff ap.call_id call_id) in
      let h : any (is_denied_answer call_id) turn.tool_results_buffer ≡ true =
        cc (recorded refused, same_id) in
      absurd (ground arith)
]

module _ (env : TurnEnv) (turn : Turn) where
  abbrev promises : List ApprovalPromise
  promises = turn.approval_promises

  pending_call-Cleared :
      (pc : PreparedToolCall)
      → Checked env promises pc
      → All (Recorded turn) promises
      → is_approved turn pc ≡ true
      → Cleared env promises (pending_call pc)
  unfolding is_approved
  pending_call-Cleared pc checked recorded approved = (
    checked.0,
    λ wanted.
        let asked = checked.1 wanted in
        let named : any (λ ap. ap.call_id == pc.call_id) promises ≡ true =
          any-imp (is_for pc.call_id pc.tool_id) (λ ap. ap.call_id == pc.call_id) promises
            (λ ap h. ground arith) asked in
        let undenied : any (is_denied_answer pc.call_id) turn.tool_results_buffer ≡ false =
          ground (arith, named) in
        (asked, All-imp promises (λ ap. granted_if_undenied turn pc.call_id ap undenied) recorded),
  )

  pending_calls-Cleared :
      (pcs : List PreparedToolCall)
      → All (Checked env promises) pcs
      → All (Recorded turn) promises
      → All (Cleared env promises) (pending_calls turn pcs)
  unfolding pending_calls
  pending_calls-Cleared [] checked recorded = tt
  pending_calls-Cleared (pc ∷ pcs) checked recorded =
      let rest = pending_calls-Cleared pcs checked.1 recorded in
      if_cases (All (Cleared env promises)) (is_approved turn pc)
        (λ approved. (pending_call-Cleared pc checked.0 recorded approved, rest)) (λ left_out. rest)

abbrev pub IsFresh : Turn → Type 0
IsFresh turn =
    (turn.prepared_calls ≡ [])
    × (turn.approval_promises ≡ [])
    × (turn.tool_results_buffer ≡ [])
    × (turn.tool_calls_this_turn ≡ [])

-- Whatever the model's stream is, every call that a turn goes on to execute is of a tool that the
-- policy allows, under the policy's own decision for it. If the policy wants an approval for it,
-- one was asked for this call and tool, and every approval that was asked under the call's id in
-- this turn was granted.
pub executed_calls-Cleared :
    (env : TurnEnv) (n : ℕ) (routes : Dict SkillToolRoute) (chunks : List ProviderChunk)
    (turn : Turn)
    → IsFresh turn
    → let streamed = on_chunks env n routes chunks turn in
      let settled = await_approvals streamed.approval_promises streamed in
      All (Cleared env settled.approval_promises) (pending_calls settled settled.prepared_calls)
executed_calls-Cleared env n routes chunks turn fresh =
    let streamed = on_chunks env n routes chunks turn in
    let same = await-SameCalls streamed.approval_promises streamed in
    let checked = on_chunks-AllChecked env n routes chunks turn (rw fresh.0 tt) in
    pending_calls-Cleared env (await_approvals streamed.approval_promises streamed) _
      (rw (same.0, same.1) checked) (rw same.1 (await-Recorded streamed.approval_promises streamed))
