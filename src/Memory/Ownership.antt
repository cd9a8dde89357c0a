-- ===== src/Memory/Ownership.antt =====
-- Messages belong to the sessions of their users, through every operation on sessions and messages.
use secure_claw.Base.{
  String, ◌≡◌, refl, ap, ◌∙◌, Bool, true, false, not, ◌&&◌, ◌||◌, List, [], ◌∷◌, ◌++◌, map, ◌==◌,
  arith, any, keep, All, All-imp, eq_iff, if_cases, any-append, inl, inr, Bool-cases,
}
use mathlib.Core.Path.{subst}
use secure_claw.Memory.{SessionRow, MessageRow, in_session_of, FinalizeParams, finalized}
use secure_claw.Memory.Erasure.{IsOwned}

abbrev pub has_session : String → List SessionRow → Bool
has_session id = any (λ s. s.id == id)

-- No two sessions have one id, as the primary key has it.
abbrev pub DistinctSessions : List SessionRow → Type 0
DistinctSessions [] = Unit
DistinctSessions (s ∷ ss) = (has_session s.id ss ≡ false) × DistinctSessions ss

-- Session ids are distinct, and every message is in a session of its user.
abbrev pub IsValid : List SessionRow → List MessageRow → Type 0
IsValid sessions messages =
    DistinctSessions sessions
    × All (λ m. in_session_of m.message.user_id sessions m ≡ true) messages

module _ (m : MessageRow) where
  absent_is_vacuous :
      (sessions : List SessionRow)
      → has_session m.message.session_id sessions ≡ false
      → All (λ s. (s.id == m.message.session_id) ≡ true → s.user_id ≡ m.message.user_id) sessions
  absent_is_vacuous [] h = tt
  absent_is_vacuous (s ∷ ss) h =
      (λ e. ground (arith, e, h), absent_is_vacuous ss (ground (arith, h)))

  in_session-Exists :
      (user_id : String) (sessions : List SessionRow)
      → in_session_of user_id sessions m ≡ true
      → has_session m.message.session_id sessions ≡ true
  in_session-Exists user_id [] h = h
  in_session-Exists user_id (s ∷ ss) h = ground (arith, h, in_session-Exists user_id ss)

  of_one_user :
      (sessions : List SessionRow)
      → DistinctSessions sessions
      → in_session_of m.message.user_id sessions m ≡ true
      → All (λ s. (s.id == m.message.session_id) ≡ true → s.user_id ≡ m.message.user_id) sessions
  of_one_user [] d h = tt
  of_one_user (s ∷ ss) d h = elim (Bool-cases (s.id == m.message.session_id)) [
    | inl e ↦
        let alone : has_session m.message.session_id ss ≡ false =
          subst (λ id. has_session id ss ≡ false)
            (ground (arith, e, eq_iff s.id m.message.session_id)) d.0 in
        (
          λ same. ground (
            arith,
            e,
            h,
            alone,
            in_session-Exists m.message.user_id ss,
            eq_iff s.user_id m.message.user_id,
          ),
          absent_is_vacuous ss alone,
        )
    | inr e ↦ (λ same. ground (arith, e, same), of_one_user ss d.1 (ground (arith, e, h)))
  ]

  pub in_session-delete :
      (user_id : String) (sessions : List SessionRow)
      → in_session_of user_id sessions m ≡ false
      → in_session_of m.message.user_id (keep (λ s. not (s.user_id == user_id)) sessions) m
        ≡ in_session_of m.message.user_id sessions m
  in_session-delete user_id [] h = refl
  in_session-delete user_id (s ∷ ss) h = ground (arith, h, in_session-delete user_id ss)

pub IsValid-IsOwned :
    (sessions : List SessionRow) (messages : List MessageRow)
    → IsValid sessions messages
    → All (IsOwned sessions) messages
IsValid-IsOwned sessions messages v =
    All-imp messages (λ m h. (h, of_one_user m sessions v.0 h)) v.1

pub DistinctSessions-snoc :
    (sessions : List SessionRow) (new : SessionRow)
    → DistinctSessions sessions
    → has_session new.id sessions ≡ false
    → DistinctSessions (sessions ++ new ∷ [])
DistinctSessions-snoc [] new d fresh = (refl, tt)
DistinctSessions-snoc (s ∷ ss) new d fresh = (
  ground (
    arith,
    d.0,
    fresh,
    any-append (λ r. r.id == s.id) ss (new ∷ []),
    eq_iff s.id new.id,
    eq_iff new.id s.id,
  ),
  DistinctSessions-snoc ss new d.1 (ground (arith, fresh)),
)

module _ (p : SessionRow → Bool) where
  has_session-keep :
      (id : String) (sessions : List SessionRow)
      → has_session id sessions ≡ false
      → has_session id (keep p sessions) ≡ false
  has_session-keep id [] h = refl
  has_session-keep id (s ∷ ss) h = ground (arith, h, has_session-keep id ss)

  pub DistinctSessions-keep :
      (sessions : List SessionRow) → DistinctSessions sessions → DistinctSessions (keep p sessions)
  DistinctSessions-keep [] d = tt
  DistinctSessions-keep (s ∷ ss) d =
      if_cases DistinctSessions (p s)
        (λ e. (has_session-keep s.id ss d.0, DistinctSessions-keep ss d.1))
        (λ e. DistinctSessions-keep ss d.1)

module _ (params : FinalizeParams) where
  finalized-id : (s : SessionRow) → (finalized params s).id ≡ s.id
  finalized-id s =
      if_cases (λ (r : SessionRow). r.id ≡ s.id) (s.id == params.session_id) (λ e. refl) (λ e. refl)

  finalized-user : (s : SessionRow) → (finalized params s).user_id ≡ s.user_id
  finalized-user s =
      if_cases (λ (r : SessionRow). r.user_id ≡ s.user_id) (s.id == params.session_id) (λ e. refl)
        (λ e. refl)

  has_session-finalized :
      (id : String) (sessions : List SessionRow)
      → has_session id (map (finalized params) sessions) ≡ has_session id sessions
  has_session-finalized id [] = refl
  has_session-finalized id (s ∷ ss) = λ i. (finalized-id s i == id) || has_session-finalized id ss i

  pub in_session-finalized :
      (user_id : String) (m : MessageRow) (sessions : List SessionRow)
      → in_session_of user_id (map (finalized params) sessions) m ≡ in_session_of user_id sessions m
  in_session-finalized user_id m [] = refl
  in_session-finalized user_id m (s ∷ ss) = λ i.
      ((finalized-id s i == m.message.session_id) && (finalized-user s i == user_id))
      || in_session-finalized user_id m ss i

  pub DistinctSessions-finalized :
      (sessions : List SessionRow)
      → DistinctSessions sessions
      → DistinctSessions (map (finalized params) sessions)
  DistinctSessions-finalized [] d = tt
  DistinctSessions-finalized (s ∷ ss) d = (
    ap (λ id. has_session id (map (finalized params) ss)) (finalized-id s)
        ∙ has_session-finalized s.id ss
        ∙ d.0,
    DistinctSessions-finalized ss d.1,
  )
