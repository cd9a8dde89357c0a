-- ===== src/Tools/Approval.antt =====
-- packages/agent-runtime/src/tools/approval-gate.ts: pending approvals, their timers and promises.
-- A call of `wait_for_approval` makes one promise and one timer; both are known by its ticket. What
-- the gate has settled is kept in its state, so that theorems can speak of it: `settled t` is the
-- value of the promise with ticket `t`, if it has one, and `armed t` is the call id that the live
-- timer's callback deletes.
pub mod Laws
pub mod Cancel
pub mod Others
pub mod Runs
use secure_claw.Base.{
  ℕ, ◌+◌, String, Bool, true, false, Option, none, some, List, [], ◌∷◌, ◌==◌, if◌then◌else◌, keep,
  nat_eq,
}
use secure_claw.Base.Dict
use secure_claw.Base.Dict.{Dict}

pub record PendingApproval : Type 0 where
  pub call_id : String
  pub tool_id : String
  pub session_id : String
  pub input_preview : String
  pub requested_at : ℕ
  -- `resolve` and `timeout`
  pub ticket : ℕ

pub record Gate : Type 0 where
  pub pending : Dict PendingApproval
  pub armed : ℕ → Option String
  pub settled : ℕ → Option Bool
  pub next : ℕ

abbrev pub new_gate : Gate
new_gate = record { pending = []; armed = λ t. none; settled = λ t. none; next = 0 }

-- a function that is changed at one number
abbrev pub at_put {ℓ} : {A : Type ℓ} → (ℕ → A) → ℕ → A → ℕ → A
at_put f k v n = if nat_eq n k then v else f n

-- `resolve(v)`: only the first call of a promise's resolver counts.
unfoldable pub resolve : ℕ → Bool → Gate → Gate
resolve t v g = record g {
  settled = at_put g.settled t (elim (g.settled t) [ none ↦ some v | some w ↦ some w ]);
}

-- `clearTimeout`
unfoldable pub clear_timeout : ℕ → Gate → Gate
clear_timeout t g = record g { armed = at_put g.armed t none }

pub record WaitParams : Type 0 where
  pub call_id : String
  pub tool_id : String
  pub session_id : String
  pub input_preview : String

-- the object that `waitForApproval` stores
abbrev pub entry_of : WaitParams → ℕ → ℕ → PendingApproval
entry_of p now ticket = record {
  call_id = p.call_id;
  tool_id = p.tool_id;
  session_id = p.session_id;
  input_preview = p.input_preview;
  requested_at = now;
  ticket = ticket;
}

-- `waitForApproval` at time `now`: the gate, and the ticket of the promise.
unfoldable pub wait_for_approval : WaitParams → ℕ → Gate → Gate × ℕ
wait_for_approval p now g = (
  record {
    pending = Dict.set g.pending p.call_id (entry_of p now g.next);
    armed = at_put g.armed g.next (some p.call_id);
    settled = g.settled;
    next = g.next + 1;
  },
  g.next,
)

-- The timer's callback: it deletes by call id, and denies. A timer that is cleared does not fire.
unfoldable pub fire_timeout : ℕ → Gate → Gate
unfolding resolve clear_timeout
fire_timeout t g = elim (g.armed t) [
  | none ↦ g
  | some call_id ↦
      resolve t false (clear_timeout t (record g { pending = Dict.delete g.pending call_id }))
]

-- `clearTimeout`, `delete` and `resolve`, in `respond` and in `cancelSession`
unfoldable pub settle : String → PendingApproval → Bool → Gate → Gate
unfolding resolve clear_timeout
settle call_id p approved g =
    let g' = clear_timeout p.ticket g in
    resolve p.ticket approved (record g' { pending = Dict.delete g'.pending call_id })

unfoldable pub respond : String → Bool → Gate → Gate × Bool
respond call_id approved g = elim (Dict.get g.pending call_id) [
  | none ↦ (g, false)
  | some p ↦ (settle call_id p approved g, true)
]

unfoldable pub get_pending_for_session : String → Gate → List PendingApproval
get_pending_for_session session_id g =
    keep (λ p. p.session_id == session_id) (Dict.values g.pending)

unfoldable pub get_all_pending : Gate → List PendingApproval
get_all_pending g = Dict.values g.pending

-- the loop of `cancelSession` over the entries of the map
unfoldable pub cancel_entries : String → Dict PendingApproval → Gate → Gate
cancel_entries session_id [] g = g
cancel_entries session_id ((call_id, p) ∷ es) g =
    cancel_entries session_id es
      (if p.session_id == session_id then settle call_id p false g else g)

unfoldable pub cancel_session : String → Gate → Gate
unfolding cancel_entries
cancel_session session_id g = cancel_entries session_id g.pending g
