-- ===== src/Agent/Turn/Tracked.antt =====
-- Every tool call of a stream is answered at once, or prepared; what is prepared is then refused by
-- the user, or pending.
use secure_claw.Base.{
  ℕ, String, ◌≡◌, refl, Bool, true, false, ◌||◌, List, [], ◌∷◌, ◌++◌, arith, ◌==◌, any, any-append,
  any-last, any-imp, All, All-snoc, All-imp, if_cases, Bool-cases, inl, inr, eq_refl, eq_iff,
}
use secure_claw.Base.Dict.{Dict}
use secure_claw.Session.Context.{ToolCall}
use secure_claw.Tools.Policy.{PolicyDecisionResult, Evaluation, ok, denied, evaluate}
use secure_claw.Agent.Executor.{SkillToolRoute}
use secure_claw.Agent.Turn.{
  TurnEnv, Turn, ProviderChunk, PreparedToolCall, ToolAnswer, on_chunk, on_chunks, on_tool_call,
  refuse, request_approval, announce, prepare, track,
}
use secure_claw.Agent.Turn.Finish.{is_denied_answer, is_approved, pending_calls}

abbrev pub answers : String → ToolAnswer → Bool
answers call_id tr = tr.call_id == call_id

abbrev pub holds : String → PreparedToolCall → Bool
holds call_id pc = pc.call_id == call_id

abbrev pub Tracked : List ToolAnswer → List PreparedToolCall → ToolCall → Type 0
Tracked trs pcs call = (any (answers call.call_id) trs || any (holds call.call_id) pcs) ≡ true

module _ (env : TurnEnv) (n : ℕ) (routes : Dict SkillToolRoute) where
  abbrev pub AllTracked : Turn → Type 0
  AllTracked turn =
      All (Tracked turn.tool_results_buffer turn.prepared_calls) turn.tool_calls_this_turn

  Tracked-answer :
      (trs trs' : List ToolAnswer) (pcs : List PreparedToolCall) (call : ToolCall)
      → Tracked trs pcs call
      → Tracked (trs ++ trs') pcs call
  Tracked-answer trs trs' pcs call h = ground (arith, any-append (answers call.call_id) trs trs')

  Tracked-prepared :
      (trs : List ToolAnswer) (pcs pcs' : List PreparedToolCall) (call : ToolCall)
      → Tracked trs pcs call
      → Tracked trs (pcs ++ pcs') call
  Tracked-prepared trs pcs pcs' call h = ground (arith, any-append (holds call.call_id) pcs pcs')

  prepare-AllTracked :
      (call : ToolCall) (decision : PolicyDecisionResult) (turn : Turn) (calls : List ToolCall)
      → All (Tracked turn.tool_results_buffer turn.prepared_calls) calls
      → turn.tool_calls_this_turn ≡ calls ++ call ∷ []
      → AllTracked (prepare env n routes call decision turn)
  unfolding prepare
  prepare-AllTracked call decision turn calls h e =
      let held : any (holds call.call_id) (prepare env n routes call decision turn).prepared_calls
          ≡ true =
        any-last (holds call.call_id) turn.prepared_calls (eq_refl call.call_id) in
      rw e (
        All-snoc _ calls
          (All-imp calls (Tracked-prepared turn.tool_results_buffer turn.prepared_calls _) h)
          (ground arith))

  on_tool_call-AllTracked :
      (call : ToolCall) (e : Evaluation) (turn : Turn)
      → AllTracked turn
      → AllTracked (on_tool_call env n routes call e turn)
  unfolding on_tool_call refuse request_approval announce
  on_tool_call-AllTracked call (denied err) turn h =
      let answered : any (answers call.call_id)
            (refuse env n routes call err turn).tool_results_buffer
          ≡ true =
        any-last (answers call.call_id) turn.tool_results_buffer (eq_refl call.call_id) in
      All-snoc _ turn.tool_calls_this_turn
        (All-imp turn.tool_calls_this_turn
          (λ earlier. Tracked-answer turn.tool_results_buffer _ turn.prepared_calls earlier) h)
        (ground (arith, answered))
  on_tool_call-AllTracked call (ok decision) turn h =
      if_cases {A = Turn} (λ t. AllTracked (prepare env n routes call decision t))
        decision.requires_approval
        (λ wanted.
          prepare-AllTracked call decision
            (request_approval env n routes call (track env n routes call turn))
            turn.tool_calls_this_turn h refl)
        (λ unwanted.
          prepare-AllTracked call decision
            (announce env n routes call (track env n routes call turn)) turn.tool_calls_this_turn h
            refl)

  on_chunk-AllTracked :
      (chunk : ProviderChunk) (turn : Turn)
      → AllTracked turn
      → AllTracked (on_chunk env n routes chunk turn)
  unfolding on_chunk
  on_chunk-AllTracked (ProviderChunk.text delta) turn h = h
  on_chunk-AllTracked (ProviderChunk.tool_call call) turn h =
      on_tool_call-AllTracked call (evaluate env.policy call.tool_id) turn h
  on_chunk-AllTracked (ProviderChunk.finish tool_use i o) turn h = h
  on_chunk-AllTracked (ProviderChunk.error message) turn h = h

  pub on_chunks-AllTracked :
      (chunks : List ProviderChunk) (turn : Turn)
      → AllTracked turn
      → AllTracked (on_chunks env n routes chunks turn)
  unfolding on_chunks
  on_chunks-AllTracked [] turn h = h
  on_chunks-AllTracked (chunk ∷ chunks) turn h =
      on_chunks-AllTracked chunks _ (on_chunk-AllTracked chunk turn h)

refused_answer :
    (turn : Turn) (call_id : String) (pc : PreparedToolCall)
    → is_approved turn pc ≡ false
    → holds call_id pc ≡ true
    → any (answers call_id) turn.tool_results_buffer ≡ true
unfolding is_approved
refused_answer turn call_id pc left_out same =
    let same_id : pc.call_id ≡ call_id = ground (arith, eq_iff pc.call_id call_id) in
    let denial : any (is_denied_answer pc.call_id) turn.tool_results_buffer ≡ true = ground arith in
    let here : any (answers pc.call_id) turn.tool_results_buffer ≡ true =
      any-imp (is_denied_answer pc.call_id) (answers pc.call_id) turn.tool_results_buffer
        (λ tr h. ground arith) denial in
    cc (here, same_id)

-- What is prepared is answered already, by the refusal of its approval, or it is pending.
pub answered_or_pending :
    (turn : Turn) (call_id : String) (pcs : List PreparedToolCall)
    → any (holds call_id) pcs ≡ true
    → (any (answers call_id) turn.tool_results_buffer
        || any (λ c. c.call_id == call_id) (pending_calls turn pcs))
      ≡ true
unfolding pending_calls
answered_or_pending turn call_id [] h = absurd (ground arith)
answered_or_pending turn call_id (pc ∷ pcs) h =
    let rest = answered_or_pending turn call_id pcs in
    elim (Bool-cases (is_approved turn pc)) [
      | inl approved ↦ ground arith
      | inr left_out ↦ elim (Bool-cases (holds call_id pc)) [
        | inl same ↦ let refused = refused_answer turn call_id pc left_out same in ground arith
        | inr other ↦ ground arith
      ]
    ]
