-- ===== src/Tools/Approval/Laws.antt =====
-- The invariant of the gate, and that each of its operations keeps it.
use secure_claw.Base.{
  ℕ, ◌≤◌, ◌<◌, String, ◌≡◌, refl, Bool, true, ◌||◌, none, some, arith, is_some, eq_iff,
  Option-cases, inl, inr,
}
use secure_claw.Base.Dict
use secure_claw.Base.Dict.{Dict}
use secure_claw.Tools.Approval.{
  PendingApproval, Gate, WaitParams, entry_of, wait_for_approval, fire_timeout, settle, respond,
  new_gate,
}

-- An entry of the map that can still be answered: its promise is open and its timer runs.
pub record IsWaiting (g : Gate) (p : PendingApproval) : Type 0 where
  pub issued : p.ticket < g.next
  pub unsettled : g.settled p.ticket ≡ none
  pub timed : g.armed p.ticket ≡ some p.call_id

pub record IsValid (g : Gate) : Type 0 where
  -- no promise hangs: each one issued is settled, or its timer will deny it
  pub covered : (t : ℕ) → t < g.next → (is_some (g.settled t) || is_some (g.armed t)) ≡ true
  -- a live timer's promise is open
  pub live : (t : ℕ) (k : String) → g.armed t ≡ some k → (t < g.next) × (g.settled t ≡ none)
  pub fresh : (t : ℕ) → g.next ≤ t → g.settled t ≡ none
  pub keyed : (k : String) (p : PendingApproval) → Dict.get g.pending k ≡ some p → p.call_id ≡ k
  pub waiting :
      (k : String) (p : PendingApproval) → Dict.get g.pending k ≡ some p → g.armed p.ticket ≡ some k
  pub distinct : Dict.Distinct g.pending

pub new_gate-IsValid : IsValid new_gate
unfolding Dict.get
new_gate-IsValid = record {
  covered = λ t h. absurd (omega arith);
  live = λ t k e. cc;
  fresh = λ t h. refl;
  keyed = λ k p e. cc;
  waiting = λ k p e. cc;
  distinct = tt;
}

pub wait-IsValid :
    (p : WaitParams) (now : ℕ) (g : Gate) → IsValid g → IsValid (wait_for_approval p now g).0
unfolding wait_for_approval
wait-IsValid p now g v = record {
  covered = λ t h. ground (arith, v.covered t);
  live = λ t k e. ground (arith, v.live t k, v.fresh t);
  fresh = λ t h. ground (arith, v.fresh t);
  keyed = λ k q e. ground (
    arith,
    v.keyed k q,
    Dict.get-set g.pending p.call_id k (entry_of p now g.next),
    eq_iff p.call_id k,
  );
  waiting = λ k q e. ground (
    arith,
    v.waiting k q,
    v.live q.ticket k,
    Dict.get-set g.pending p.call_id k (entry_of p now g.next),
    eq_iff p.call_id k,
  );
  distinct = Dict.set-Distinct g.pending p.call_id _ v.distinct;
}

module _ (t : ℕ) (k : String) (g : Gate) (armed : g.armed t ≡ some k) (v : IsValid g) where
  fire_armed-IsValid : IsValid (fire_timeout t g)
  unfolding fire_timeout
  fire_armed-IsValid =
      rw (armed, fire_timeout)
        (record {
          covered = λ u h. ground (arith, v.covered u);
          live = λ u j e. ground (arith, v.live u j);
          fresh = λ u h. ground (arith, v.fresh u, v.live t k);
          keyed = λ j q e. ground (arith, v.keyed j q, Dict.get-delete g.pending k j);
          waiting =
              λ j q e. ground (arith, v.waiting j q, Dict.get-delete g.pending k j, eq_iff k j);
          distinct = Dict.delete-Distinct g.pending k v.distinct;
        })

pub fire-IsValid : (t : ℕ) (g : Gate) → IsValid g → IsValid (fire_timeout t g)
unfolding fire_timeout
fire-IsValid t g v = elim (Option-cases (g.armed t)) [
  | inl idle ↦ rw (idle, fire_timeout) v
  | inr (k, armed) ↦ fire_armed-IsValid t k g armed v
]

pub settle-IsValid :
    (k : String) (p : PendingApproval) (b : Bool) (g : Gate)
    → Dict.get g.pending k ≡ some p
    → IsValid g
    → IsValid (settle k p b g)
unfolding settle
settle-IsValid k p b g e v = record {
  covered = λ t h. ground (arith, v.covered t);
  live = λ t j ej. ground (arith, v.live t j);
  fresh = λ t h. ground (arith, v.fresh t, v.live p.ticket k, v.waiting k p e);
  keyed = λ j q ej. ground (arith, v.keyed j q, Dict.get-delete g.pending k j);
  waiting = λ j q ej.
      ground (arith, v.waiting j q, v.waiting k p e, Dict.get-delete g.pending k j, eq_iff k j);
  distinct = Dict.delete-Distinct g.pending k v.distinct;
}

pub respond-IsValid : (k : String) (b : Bool) (g : Gate) → IsValid g → IsValid (respond k b g).0
unfolding respond
respond-IsValid k b g v = elim (Option-cases (Dict.get g.pending k)) [
  | inl missing ↦ rw (missing, respond) v
  | inr (p, found) ↦ rw (found, respond) (settle-IsValid k p b g found v)
]
