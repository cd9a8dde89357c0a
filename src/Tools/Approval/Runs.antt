-- ===== src/Tools/Approval/Runs.antt =====
-- What can happen to a gate over time: calls of its methods and timers that fire, in any order.
use secure_claw.Base.{
  ℕ, ◌+◌, String, ◌≡◌, inl, inr, Bool, true, false, none, some, arith, eq_iff, Option-cases,
}
use secure_claw.Base.Dict
use secure_claw.Tools.Approval.{
  PendingApproval, Gate, WaitParams, new_gate, wait_for_approval, fire_timeout, settle, respond,
  cancel_session,
}
use secure_claw.Tools.Approval.Laws.{
  IsValid, new_gate-IsValid, wait-IsValid, fire-IsValid, respond-IsValid,
}
use secure_claw.Tools.Approval.Cancel.{
  cancel_session-IsValid, cancel_session_lem, cancel_session_never_grants,
}

pub data Step (g : Gate) : Gate → Type 0 where
  wait : (p : WaitParams) (now : ℕ) → Step g (wait_for_approval p now g).0
  fire : (t : ℕ) → Step g (fire_timeout t g)
  answer : (k : String) (approved : Bool) → Step g (respond k approved g).0
  cancel : (s : String) → Step g (cancel_session s g)

pub data Reach : Gate → Type 0 where
  start : Reach new_gate
  next : {g h : Gate} → Reach g → Step g h → Reach h

Step-IsValid : {g h : Gate} → Step g h → IsValid g → IsValid h
Step-IsValid {g} (wait p now) v = wait-IsValid p now g v
Step-IsValid {g} (fire t) v = fire-IsValid t g v
Step-IsValid {g} (answer k b) v = respond-IsValid k b g v
Step-IsValid {g} (cancel s) v = cancel_session-IsValid s g v

-- In every reachable gate, each promise that was ever handed out is settled or has a live timer,
-- which settles it; a live timer's promise is still open; and every entry of the map is stored
-- under its own call id and has a live timer for that id.
pub Reach-IsValid : {g : Gate} → Reach g → IsValid g
Reach-IsValid start = new_gate-IsValid
Reach-IsValid (next r st) = Step-IsValid st (Reach-IsValid r)

-- The user said yes to the call that the promise belongs to.
abbrev pub GrantedByUser : Gate → Gate → ℕ → Type 0
GrantedByUser g h t =
    (k : String) × (p : PendingApproval) × (Dict.get g.pending k ≡ some p)
    × (p.ticket ≡ t)
    × (h ≡ (respond k true g).0)

settled-Step :
    {g h : Gate} (t : ℕ) (b : Bool)
    → Step g h
    → IsValid g
    → g.settled t ≡ some b
    → h.settled t ≡ some b
unfolding wait_for_approval fire_timeout respond settle
settled-Step {g} t b (wait p now) v e = e
settled-Step {g} t b (fire u) v e = ground arith
settled-Step {g} t b (answer k c) v e = ground arith
settled-Step {g} t b (cancel s) v e = (cancel_session_lem s g v).3 t b e

answer_grants :
    (g : Gate) (t : ℕ) (k : String) (b : Bool)
    → (respond k b g).0.settled t ≡ some true
    → g.settled t ≡ none
    → GrantedByUser g (respond k b g).0 t
unfolding respond settle
answer_grants g t k b e open_before = elim (Option-cases (Dict.get g.pending k)) [
  | inl missing ↦ absurd (ground arith)
  | inr (p, found) ↦ (k, p, found, ground arith, ground arith)
]

Step_grants :
    {g h : Gate} (t : ℕ)
    → Step g h
    → h.settled t ≡ some true
    → g.settled t ≡ none
    → GrantedByUser g h t
unfolding wait_for_approval fire_timeout
Step_grants {g} t (wait p now) e open_before = absurd (ground arith)
Step_grants {g} t (fire u) e open_before = absurd (ground arith)
Step_grants {g} t (answer k b) e open_before = answer_grants g t k b e open_before
Step_grants {g} t (cancel s) e open_before =
    absurd (ground (arith, cancel_session_never_grants s g t))

-- In a reachable gate a promise is settled once: no step changes its value.
pub promise_is_settled_once :
    {g h : Gate} (t : ℕ) (b : Bool)
    → Reach g
    → Step g h
    → g.settled t ≡ some b
    → h.settled t ≡ some b
promise_is_settled_once t b r st = settled-Step t b st (Reach-IsValid r)

-- A promise that a step of a reachable gate turns from open to granted was granted because
-- `respond` was called with an approval for the entry that holds it: a timer, a cancelled session
-- or another call never grants.
pub approval_is_by_user :
    {g h : Gate} (t : ℕ)
    → Reach g
    → Step g h
    → h.settled t ≡ some true
    → g.settled t ≡ none
    → GrantedByUser g h t
approval_is_by_user t r st = Step_grants t st

-- the gate after two calls with one call id
abbrev pub waited_twice : WaitParams → WaitParams → ℕ → ℕ → Gate → Gate
waited_twice p q now later g = (wait_for_approval q later (wait_for_approval p now g).0).0

-- If a call id is registered twice, the timer of the first call, when it fires, removes the
-- second call's entry: from then on `respond` finds nothing under that id, although the second
-- call's promise is open and its own timer has not fired.
pub stale_timer_drops_entry :
    (p q : WaitParams) (now later : ℕ) (approved : Bool) (g : Gate)
    → Reach g
    → p.call_id ≡ q.call_id
    → ((respond q.call_id approved (fire_timeout g.next (waited_twice p q now later g))).1 ≡ false)
      × ((fire_timeout g.next (waited_twice p q now later g)).settled (g.next + 1) ≡ none)
      × ((fire_timeout g.next (waited_twice p q now later g)).armed (g.next + 1) ≡ some q.call_id)
unfolding wait_for_approval fire_timeout respond
stale_timer_drops_entry p q now later approved g r same =
    let v = Reach-IsValid r in
    let found = Dict.get-delete (waited_twice p q now later g).pending p.call_id q.call_id in
    let unsettled = v.fresh (g.next + 1) (omega arith) in
    (ground (arith, found, eq_iff p.call_id q.call_id), ground arith, ground arith)
