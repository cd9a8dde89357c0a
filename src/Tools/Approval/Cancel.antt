-- ===== src/Tools/Approval/Cancel.antt =====
-- `cancelSession` of approval-gate.ts: what its loop over the map does.
use secure_claw.Base.{
  ℕ, String, ◌≡◌, refl, Bool, true, false, ◌&&◌, Option, none, some, [], ◌∷◌, arith, ◌==◌,
  if◌then◌else◌, any, keep, eq_iff, eq_refl, Bool-cases, inl, inr,
}
use secure_claw.Base.Dict
use secure_claw.Base.Dict.{Dict}
use secure_claw.Tools.Approval.{
  PendingApproval, Gate, settle, cancel_entries, cancel_session, get_pending_for_session,
}
use secure_claw.Tools.Approval.Laws.{IsValid, settle-IsValid}

-- the entries of the map at which the loop has not arrived are still in it
abbrev pub Stored : Dict PendingApproval → Gate → Type 0
Stored es g =
    (k : String) (p : PendingApproval) → Dict.get es k ≡ some p → Dict.get g.pending k ≡ some p

module _ (s : String) where
  hit : String → String × PendingApproval → Bool
  hit k e = e.0 == k && e.1.session_id == s

  -- the gate after one round of the loop
  abbrev pub round : String → PendingApproval → Gate → Gate
  round k p g = if p.session_id == s then settle k p false g else g

  pub Stored-round :
      (k : String) (p : PendingApproval) (es : Dict PendingApproval) (g : Gate)
      → Dict.get es k ≡ none
      → Stored ((k, p) ∷ es) g
      → Stored es (round k p g)
  unfolding settle Dict.get
  Stored-round k p es g fresh h j q e =
      ground (arith, h j q, Dict.get-delete g.pending k j, eq_iff k j)

  pub round-IsValid :
      (k : String) (p : PendingApproval) (es : Dict PendingApproval) (g : Gate)
      → Stored ((k, p) ∷ es) g
      → IsValid g
      → IsValid (round k p g)
  unfolding Dict.get
  round-IsValid k p es g h v = elim (Bool-cases (p.session_id == s)) [
    | inl own ↦ rw own (settle-IsValid k p false g (h k p (simp eq_refl)) v)
    | inr other ↦ rw other v
  ]

  cancel_entries-IsValid :
      (es : Dict PendingApproval) (g : Gate)
      → Dict.Distinct es
      → Stored es g
      → IsValid g
      → IsValid (cancel_entries s es g)
  unfolding cancel_entries
  cancel_entries-IsValid [] g d h v = v
  cancel_entries-IsValid ((k, p) ∷ es) g d h v =
      cancel_entries-IsValid es (round k p g) d.1 (Stored-round k p es g d.0 h)
        (round-IsValid k p es g h v)

  get-cancel_entries :
      (es : Dict PendingApproval) (g : Gate) (k : String)
      → Dict.get (cancel_entries s es g).pending k
        ≡ (if any (hit k) es then none else Dict.get g.pending k)
  unfolding cancel_entries hit settle
  get-cancel_entries [] g k = refl
  get-cancel_entries ((j, p) ∷ es) g k =
      ground (arith, get-cancel_entries es (round j p g) k, Dict.get-delete g.pending j k)

  any-hit :
      (es : Dict PendingApproval) (k : String)
      → Dict.Distinct es
      → any (hit k) es ≡ (elim (Dict.get es k) [ none ↦ false | some p ↦ p.session_id == s ])
  unfolding hit Dict.get
  any-hit [] k d = refl
  any-hit ((j, p) ∷ es) k d = ground (arith, any-hit es k d.1, eq_iff j k)

  -- a settled promise keeps its value through the loop, and none becomes a grant
  settled-cancel_entries :
      (es : Dict PendingApproval) (g : Gate) (t : ℕ) (b : Bool)
      → g.settled t ≡ some b
      → (cancel_entries s es g).settled t ≡ some b
  unfolding cancel_entries settle
  settled-cancel_entries [] g t b h = h
  settled-cancel_entries ((k, p) ∷ es) g t b h =
      settled-cancel_entries es (round k p g) t b (ground arith)

  cancel_entries_never_grants :
      (es : Dict PendingApproval) (g : Gate) (t : ℕ)
      → (cancel_entries s es g).settled t ≡ some true
      → g.settled t ≡ some true
  unfolding cancel_entries settle
  cancel_entries_never_grants [] g t h = h
  cancel_entries_never_grants ((k, p) ∷ es) g t h =
      let before = cancel_entries_never_grants es (round k p g) t h in ground arith

  -- every promise of the session that the loop meets is denied
  denied-cancel_entries :
      (es : Dict PendingApproval) (g : Gate) (k : String) (p : PendingApproval)
      → Dict.get es k ≡ some p
      → (p.session_id == s) ≡ true
      → g.settled p.ticket ≡ none
      → (cancel_entries s es g).settled p.ticket ≡ some false
  unfolding cancel_entries settle Dict.get
  denied-cancel_entries [] g k p e own open_promise = cc
  denied-cancel_entries ((j, q) ∷ es) g k p e own open_promise = ground (
    arith,
    denied-cancel_entries es (round j q g) k p,
    settled-cancel_entries es (round j q g) p.ticket false,
  )

pub cancel_session_never_grants :
    (s : String) (g : Gate) (t : ℕ)
    → (cancel_session s g).settled t ≡ some true
    → g.settled t ≡ some true
unfolding cancel_session
cancel_session_never_grants s g = cancel_entries_never_grants s g.pending g

-- What cancelling a session does to the entry of a call id.
abbrev pub unless_of : String → Option PendingApproval → Option PendingApproval
unless_of s none = none
unless_of s (some p) = if p.session_id == s then none else some p

none_kept :
    (s : String) (m : Dict PendingApproval)
    → Dict.AllValues (λ p. (p.session_id == s) ≡ false) m
    → keep (λ p. p.session_id == s) (Dict.values m) ≡ []
unfolding Dict.values
none_kept s [] h = refl
none_kept s ((k, p) ∷ m) h = rw (h.0, none_kept s m h.1)

module _ (s : String) (g : Gate) (v : IsValid g) where
  pub cancel_session-IsValid : IsValid (cancel_session s g)
  unfolding cancel_session
  cancel_session-IsValid = cancel_entries-IsValid s g.pending g v.distinct (λ k p e. e) v

  pub get-cancel_session :
      (k : String) → Dict.get (cancel_session s g).pending k ≡ unless_of s (Dict.get g.pending k)
  unfolding cancel_session
  get-cancel_session k =
      ground (arith, get-cancel_entries s g.pending g k, any-hit s g.pending k v.distinct)

  no_own_entry :
      (k : String) (p : PendingApproval)
      → Dict.get (cancel_session s g).pending k ≡ some p
      → (p.session_id == s) ≡ false
  no_own_entry k p e = ground (arith, get-cancel_session k)

  -- On a valid gate, cancelling a session removes exactly its pending approvals: none of them
  -- is listed for it any more, an approval of another session stays as it was, each promise of
  -- the session that was still open is settled to a denial, and a promise settled before keeps
  -- its value.
  pub cancel_session_lem :
      (get_pending_for_session s (cancel_session s g) ≡ [])
      × ((k : String)
          → Dict.get (cancel_session s g).pending k ≡ unless_of s (Dict.get g.pending k))
      × ((k : String) (p : PendingApproval)
          → Dict.get g.pending k ≡ some p
          → (p.session_id == s) ≡ true
          → (cancel_session s g).settled p.ticket ≡ some false)
      × ((t : ℕ) (b : Bool) → g.settled t ≡ some b → (cancel_session s g).settled t ≡ some b)
  unfolding get_pending_for_session Dict.values
  cancel_session_lem = (
    none_kept s _ (
        Dict.AllValues-of_get (λ p. (p.session_id == s) ≡ false) (cancel_session s g).pending
          cancel_session-IsValid.distinct no_own_entry),
    get-cancel_session,
    λ k p e own.
        unfold cancel_session in
        denied-cancel_entries s g.pending g k p e own (v.live p.ticket k (v.waiting k p e)).1,
    λ t b h. unfold cancel_session in settled-cancel_entries s g.pending g t b h,
  )
