-- ===== src/Tests/Tools.antt =====
-- The policy engine, the approval gate and the session manager at concrete inputs.
use secure_claw.Base.{ℕ, String, ◌≡◌, refl, Bool, true, false, ◌==◌, none, some, [], ◌∷◌}
use secure_claw.Base.Dict
use secure_claw.Sanitizer.Score.{get_score}
use secure_claw.Session.Context.{terminated}
use secure_claw.Session.Manager.{
  SessionManager, get_session, terminate_session, terminate_session_lem,
}
use secure_claw.Tools.Policy.{engine, evaluate}
use secure_claw.Tools.Policy.Laws.{Decides, entry_for, evaluate-Decides}
use secure_claw.Tools.Approval.{
  PendingApproval, Gate, new_gate, wait_for_approval, fire_timeout, respond, settle, cancel_session,
  get_pending_for_session,
}
use secure_claw.Tools.Approval.Laws.{IsValid}
use secure_claw.Tools.Approval.Cancel.{unless_of, cancel_session_lem}
use secure_claw.Tools.Approval.Runs.{
  Step, Reach, GrantedByUser, waited_twice, Reach-IsValid, approval_is_by_user,
  stale_timer_drops_entry,
}
use secure_claw.Tests.Fixtures.{service, entries, ctx, wait_c1}

abbrev waiting : Gate
waiting = (wait_for_approval wait_c1 0 new_gate).0

reached : Reach waiting
reached = Reach.next Reach.start (Step.wait wait_c1 0)

abbrev granted : Gate
granted = (respond "c1" true waiting).0

reached_granted : Reach granted
reached_granted = Reach.next reached (Step.answer "c1" true)

evaluate-Decides_example :
    Decides
      (entry_for entries "shell_exec")
      ("file_write" ∷ [])
      "shell_exec"
      (evaluate (engine ("file_write" ∷ []) entries) "shell_exec")
evaluate-Decides_example = evaluate-Decides ("file_write" ∷ []) entries "shell_exec"

Reach-IsValid_example : IsValid waiting
Reach-IsValid_example = Reach-IsValid reached

approval_is_by_user_example : GrantedByUser waiting granted 0
unfolding wait_for_approval respond settle Dict.get Dict.set
approval_is_by_user_example = approval_is_by_user 0 reached (Step.answer "c1" true) refl refl

stale_timer_drops_entry_example :
    ((respond "c1" true (fire_timeout 0 (waited_twice wait_c1 wait_c1 0 9 new_gate))).1 ≡ false)
    × ((fire_timeout 0 (waited_twice wait_c1 wait_c1 0 9 new_gate)).settled 1 ≡ none)
    × ((fire_timeout 0 (waited_twice wait_c1 wait_c1 0 9 new_gate)).armed 1 ≡ some "c1")
stale_timer_drops_entry_example =
    stale_timer_drops_entry wait_c1 wait_c1 0 9 true new_gate Reach.start refl

cancel_session_lem_example :
    (get_pending_for_session "s1" (cancel_session "s1" waiting) ≡ [])
    × ((k : String)
        → Dict.get (cancel_session "s1" waiting).pending k
          ≡ unless_of "s1" (Dict.get waiting.pending k))
    × ((k : String) (p : PendingApproval)
        → Dict.get waiting.pending k ≡ some p
        → (p.session_id == "s1") ≡ true
        → (cancel_session "s1" waiting).settled p.ticket ≡ some false)
    × ((t : ℕ) (b : Bool)
        → waiting.settled t ≡ some b
        → (cancel_session "s1" waiting).settled t ≡ some b)
cancel_session_lem_example = cancel_session_lem "s1" waiting (Reach-IsValid reached)

-- an approval of another session beside the first
abbrev waiting_both : Gate
waiting_both =
    (wait_for_approval (record wait_c1 { call_id = "c2"; session_id = "s2" }) 1 waiting).0

reached_both : Reach waiting_both
reached_both =
    Reach.next reached (Step.wait (record wait_c1 { call_id = "c2"; session_id = "s2" }) 1)

abbrev manager : SessionManager
manager = record { sessions = ("s1", ctx) ∷ []; sanitizer = service; approval_gate = waiting_both }

terminate_session_lem_example :
    ((terminate_session "s1" manager).1 ≡ some (record ctx { status = terminated }))
    × (get_session "s1" (terminate_session "s1" manager).0 ≡ none)
    × (get_pending_for_session "s1" (terminate_session "s1" manager).0.approval_gate ≡ [])
    × (Dict.get (terminate_session "s1" manager).0.sanitizer.session_delimiters "s1" ≡ none)
    × (get_score "s1" (terminate_session "s1" manager).0.sanitizer.tracker ≡ 0)
    × (get_session "s2" (terminate_session "s1" manager).0 ≡ get_session "s2" manager)
    × ((k : String)
        → Dict.get (terminate_session "s1" manager).0.approval_gate.pending k
          ≡ unless_of "s1" (Dict.get manager.approval_gate.pending k))
    × (get_pending_for_session "s2" (terminate_session "s1" manager).0.approval_gate
        ≡ get_pending_for_session "s2" manager.approval_gate)
    × ((k : String) (p : PendingApproval)
        → Dict.get manager.approval_gate.pending k ≡ some p
        → (p.session_id == "s1") ≡ true
        → (terminate_session "s1" manager).0.approval_gate.settled p.ticket ≡ some false)
    × (Dict.get (terminate_session "s1" manager).0.sanitizer.session_delimiters "s2"
        ≡ Dict.get manager.sanitizer.session_delimiters "s2")
    × (get_score "s2" (terminate_session "s1" manager).0.sanitizer.tracker
        ≡ get_score "s2" manager.sanitizer.tracker)
unfolding get_session Dict.get
terminate_session_lem_example =
    terminate_session_lem "s1" "s2" manager ctx (Reach-IsValid reached_both) refl refl
