-- ===== src/Session/Manager.antt =====
-- packages/agent-runtime/src/session/session-manager.ts, over the sanitizer and the approval gate
-- that it shares with the agent loop.
use secure_claw.Base.{
  ℕ, String, ◌≡◌, refl, true, false, Option, none, some, List, [], ◌∷◌, arith, ◌==◌, any, eq_refl,
  eq_iff, Bool-cases, inl, inr,
}
use secure_claw.Base.Dict
use secure_claw.Base.Dict.{Dict}
use secure_claw.Sanitizer.Score.{get_score, reset_session}
use secure_claw.Sanitizer.Service.{SanitizerService, init_session, destroy_session}
use secure_claw.Tools.Approval.{PendingApproval, Gate, cancel_session, get_pending_for_session}
use secure_claw.Tools.Approval.Laws.{IsValid}
use secure_claw.Tools.Approval.Cancel.{unless_of, cancel_session_lem}
use secure_claw.Tools.Approval.Others.{pending-cancel_session}
use secure_claw.Session.Context.{SessionContext, create_session_context, terminated}

pub record SessionManager : Type 0 where
  pub sessions : Dict SessionContext
  pub sanitizer : SanitizerService
  pub approval_gate : Gate

-- `createSession`, with the random session id and delimiter token
unfoldable pub create_session :
    String → String → String → ℕ → SessionManager → SessionManager × SessionContext
create_session session_id token user_id now m =
    let ctx = create_session_context session_id user_id now in
    let (sanitizer, _) = init_session session_id token m.sanitizer in
    (record m { sessions = Dict.set m.sessions session_id ctx; sanitizer = sanitizer }, ctx)

unfoldable pub get_session : String → SessionManager → Option SessionContext
get_session session_id m = Dict.get m.sessions session_id

-- the state after `terminateSession`, for a session that is there
unfoldable pub drop_session : String → SessionManager → SessionManager
drop_session session_id m = record {
  approval_gate = cancel_session session_id m.approval_gate;
  sanitizer = destroy_session session_id m.sanitizer;
  sessions = Dict.delete m.sessions session_id;
}

unfoldable pub terminate_session : String → SessionManager → SessionManager × Option SessionContext
unfolding drop_session
terminate_session session_id m = elim (Dict.get m.sessions session_id) [
  | none ↦ (m, none)
  | some ctx ↦ (drop_session session_id m, some (record ctx { status = terminated }))
]

unfoldable pub get_active_sessions : SessionManager → List SessionContext
get_active_sessions m = Dict.values m.sessions

-- the loop of `terminateAll` over the keys
unfoldable pub terminate_keys : List String → SessionManager → SessionManager
terminate_keys [] m = m
terminate_keys (k ∷ ks) m = terminate_keys ks (terminate_session k m).0

unfoldable pub terminate_all : SessionManager → SessionManager
unfolding terminate_keys
terminate_all m = terminate_keys (Dict.keys m.sessions) m

-- On a valid gate, terminating a session that is there leaves nothing of it behind: no context, no
-- pending approval, whose promise is denied, no delimiters and no score, while the context that is
-- handed back is marked as terminated. Another session keeps its context, its delimiters, its score
-- and its pending approvals, under the same call ids and listed in the same order.
pub terminate_session_lem :
    (s other : String) (m : SessionManager) (ctx : SessionContext)
    → IsValid m.approval_gate
    → get_session s m ≡ some ctx
    → (s == other) ≡ false
    → ((terminate_session s m).1 ≡ some (record ctx { status = terminated }))
      × (get_session s (terminate_session s m).0 ≡ none)
      × (get_pending_for_session s (terminate_session s m).0.approval_gate ≡ [])
      × (Dict.get (terminate_session s m).0.sanitizer.session_delimiters s ≡ none)
      × (get_score s (terminate_session s m).0.sanitizer.tracker ≡ 0)
      × (get_session other (terminate_session s m).0 ≡ get_session other m)
      × ((k : String)
          → Dict.get (terminate_session s m).0.approval_gate.pending k
            ≡ unless_of s (Dict.get m.approval_gate.pending k))
      × (get_pending_for_session other (terminate_session s m).0.approval_gate
          ≡ get_pending_for_session other m.approval_gate)
      × ((k : String) (p : PendingApproval)
          → Dict.get m.approval_gate.pending k ≡ some p
          → (p.session_id == s) ≡ true
          → (terminate_session s m).0.approval_gate.settled p.ticket ≡ some false)
      × (Dict.get (terminate_session s m).0.sanitizer.session_delimiters other
          ≡ Dict.get m.sanitizer.session_delimiters other)
      × (get_score other (terminate_session s m).0.sanitizer.tracker
          ≡ get_score other m.sanitizer.tracker)
unfolding get_session terminate_session destroy_session get_score reset_session
terminate_session_lem s other m ctx v found h =
    let gone = Dict.get-delete m.sessions s in
    let undelimited = Dict.get-delete m.sanitizer.session_delimiters s in
    let unscored = Dict.get-delete m.sanitizer.tracker.scores s in
    rw (found, terminate_session)
      (
        refl,
        ground (arith, gone s, eq_refl s),
        (cancel_session_lem s m.approval_gate v).0,
        ground (arith, undelimited s, eq_refl s),
        ground (arith, unscored s, eq_refl s),
        ground (arith, gone other),
        (cancel_session_lem s m.approval_gate v).1,
        pending-cancel_session s other h m.approval_gate v,
        (cancel_session_lem s m.approval_gate v).2,
        ground (arith, undelimited other),
        ground (arith, unscored other),
      )

get-terminate_keys :
    (ks : List String) (m : SessionManager) (k : String)
    → get_session k m ≡ none
    → get_session k (terminate_keys ks m) ≡ none
unfolding terminate_keys terminate_session get_session
get-terminate_keys [] m k h = h
get-terminate_keys (j ∷ ks) m k h =
    get-terminate_keys ks (terminate_session j m).0 k
      (ground (arith, Dict.get-delete m.sessions j k))

terminated_key :
    (ks : List String) (m : SessionManager) (k : String)
    → any (λ j. j == k) ks ≡ true
    → get_session k (terminate_keys ks m) ≡ none
unfolding terminate_keys terminate_session get_session
terminated_key [] m k h = cc
terminated_key (j ∷ ks) m k h = ground (
  arith,
  terminated_key ks (terminate_session j m).0 k,
  get-terminate_keys ks (terminate_session j m).0 k,
  Dict.get-delete m.sessions j k,
  eq_iff j k,
)

missing_key {ℓ} :
    {V : Type ℓ} (m : Dict V) (k : String)
    → any (λ j. j == k) (Dict.keys m) ≡ false
    → Dict.get m k ≡ none
unfolding Dict.get Dict.keys
missing_key [] k h = refl
missing_key ((j, v) ∷ m) k h = ground (arith, missing_key m k)

-- After a shutdown no session is left, whatever sessions there were.
pub get_session-terminate_all :
    (m : SessionManager) (k : String) → get_session k (terminate_all m) ≡ none
unfolding terminate_all get_session
get_session-terminate_all m k = elim (Bool-cases (any (λ j. j == k) (Dict.keys m.sessions))) [
  | inl listed ↦ terminated_key (Dict.keys m.sessions) m k listed
  | inr unlisted ↦ get-terminate_keys (Dict.keys m.sessions) m k (missing_key m.sessions k unlisted)
]
