-- ===== src/Tools/Approval/Others.antt =====
-- What `cancelSession` leaves of other sessions.
use secure_claw.Base.{
  String, ◌≡◌, refl, Bool, true, false, none, some, [], ◌∷◌, arith, ◌==◌, keep, eq_iff, eq_refl,
  ◌∙◌, if_cases,
}
use secure_claw.Base.Dict
use secure_claw.Base.Dict.{Dict}
use secure_claw.Tools.Approval.{
  PendingApproval, Gate, settle, cancel_entries, cancel_session, get_pending_for_session,
}
use secure_claw.Tools.Approval.Laws.{IsValid}
use secure_claw.Tools.Approval.Cancel.{Stored, round, Stored-round, round-IsValid}

module _ (s other : String) (differs : (s == other) ≡ false) where
  abbrev of_other : PendingApproval → Bool
  of_other p = p.session_id == other

  absent_key : (m : Dict PendingApproval) (k : String) → Dict.get m k ≡ none → Dict.delete m k ≡ m
  unfolding Dict.get Dict.delete
  absent_key [] k h = refl
  absent_key ((j, p) ∷ m) k h = ground (arith, absent_key m k)

  others-delete :
      (m : Dict PendingApproval) (k : String) (p : PendingApproval)
      → Dict.Distinct m
      → Dict.get m k ≡ some p
      → (p.session_id == s) ≡ true
      → keep of_other (Dict.values (Dict.delete m k)) ≡ keep of_other (Dict.values m)
  unfolding Dict.get Dict.delete Dict.values
  others-delete [] k p d e own = refl
  others-delete ((j, q) ∷ m) k p d e own = ground (
    arith,
    others-delete m k p d.1,
    absent_key m k,
    d.0,
    differs,
    eq_iff j k,
    eq_iff p.session_id s,
    eq_iff p.session_id other,
    eq_iff s other,
  )

  pending-cancel_entries :
      (es : Dict PendingApproval) (g : Gate)
      → Dict.Distinct es
      → Stored es g
      → IsValid g
      → get_pending_for_session other (cancel_entries s es g) ≡ get_pending_for_session other g
  unfolding cancel_entries get_pending_for_session settle Dict.get
  pending-cancel_entries [] g d h v = refl
  pending-cancel_entries ((k, p) ∷ es) g d h v =
      pending-cancel_entries es (round s k p g) d.1 (Stored-round s k p es g d.0 h)
        (round-IsValid s k p es g h v)
      ∙ if_cases {A = Gate}
          (λ g'. keep of_other (Dict.values g'.pending) ≡ keep of_other (Dict.values g.pending))
          (p.session_id == s)
          (λ own. others-delete g.pending k p v.distinct (h k p (simp eq_refl)) own) (λ kept. refl)

  -- Cancelling a session leaves the list of another session's approvals.
  pub pending-cancel_session :
      (g : Gate)
      → IsValid g
      → get_pending_for_session other (cancel_session s g) ≡ get_pending_for_session other g
  unfolding cancel_session
  pending-cancel_session g v = pending-cancel_entries g.pending g v.distinct (λ k p e. e) v
