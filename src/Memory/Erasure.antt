-- ===== src/Memory/Erasure.antt =====
-- What is left of a user after `deleteUserData`.
use secure_claw.Base.{
  String, ◌≡◌, refl, ap, Bool, true, false, not, List, [], ◌∷◌, ◌==◌, arith, length, keep, All,
  All-imp, eq_iff,
}
use mathlib.Core.Path.{subst}
use secure_claw.Memory.{
  SessionRow, MessageRow, LessonRow, Memory, of_user, lesson_of, in_session_of, delete_user_data,
}

abbrev session_of : String → SessionRow → Bool
session_of user_id s = s.user_id == user_id

module _ {ℓ} {A : Type ℓ} where
  -- Nothing that passes `q` passes `p`, so that dropping what fails `p` drops all of it.
  dropped_rows_go :
      (p q : A → Bool) (xs : List A)
      → All (λ x. q x ≡ true → p x ≡ false) xs
      → keep q (keep p xs) ≡ []
  dropped_rows_go p q [] h = refl
  dropped_rows_go p q (x ∷ xs) h = ground (arith, h.0, dropped_rows_go p q xs h.1)

  kept_rows_stay :
      (p q : A → Bool) (xs : List A)
      → All (λ x. q x ≡ true → p x ≡ true) xs
      → keep q (keep p xs) ≡ keep q xs
  kept_rows_stay p q [] h = refl
  kept_rows_stay p q (x ∷ xs) h = ground (arith, h.0, kept_rows_stay p q xs h.1)

  All-any : (P : A → Type 0) (xs : List A) → ((x : A) → P x) → All P xs
  All-any P [] h = tt
  All-any P (x ∷ xs) h = (h x, All-any P xs h)

-- The sessions with the id of a message's session are all of the message's user, and there is one.
abbrev pub IsOwned : List SessionRow → MessageRow → Type 0
IsOwned sessions m =
    (in_session_of m.message.user_id sessions m ≡ true)
    × All (λ s. (s.id == m.message.session_id) ≡ true → s.user_id ≡ m.message.user_id) sessions

not_in_other :
    (user_id : String) (sessions : List SessionRow) (m : MessageRow)
    → All (λ s. (s.id == m.message.session_id) ≡ true → s.user_id ≡ m.message.user_id) sessions
    → (m.message.user_id == user_id) ≡ false
    → in_session_of user_id sessions m ≡ false
not_in_other user_id [] m h other = refl
not_in_other user_id (s ∷ ss) m h other = ground (
  arith,
  h.0,
  not_in_other user_id ss m h.1 other,
  eq_iff s.user_id user_id,
  eq_iff m.message.user_id user_id,
)

-- the rows of a user
abbrev pub rows_of : String → Memory → List SessionRow × (List MessageRow × List LessonRow)
rows_of user_id db = (
  keep (session_of user_id) db.sessions,
  (keep (of_user user_id) db.messages, keep (lesson_of user_id) db.lessons),
)

owned_is_erased :
    (user_id : String) (sessions : List SessionRow) (m : MessageRow)
    → IsOwned sessions m
    → of_user user_id m ≡ true
    → not (in_session_of user_id sessions m) ≡ false
owned_is_erased user_id sessions m h same = ap not (
    subst (λ u. in_session_of u sessions m ≡ true)
      (ground (arith, same, eq_iff m.message.user_id user_id)) h.0)

others_message_stays :
    (user_id other : String) (sessions : List SessionRow) (m : MessageRow)
    → (user_id == other) ≡ false
    → IsOwned sessions m
    → of_user other m ≡ true
    → not (in_session_of user_id sessions m) ≡ true
others_message_stays user_id other sessions m differs h same = ground (
  arith,
  not_in_other user_id sessions m h.1,
  eq_iff m.message.user_id user_id,
  eq_iff m.message.user_id other,
  eq_iff user_id other,
)

is_other :
    (user_id other owner : String)
    → (user_id == other) ≡ false
    → (owner == other) ≡ true
    → not (owner == user_id) ≡ true
is_other user_id other owner differs same =
    ground (arith, eq_iff owner user_id, eq_iff owner other, eq_iff user_id other)

triple :
    {ss ss' : List SessionRow} {ms ms' : List MessageRow} {ls ls' : List LessonRow}
    → ss ≡ ss'
    → ms ≡ ms'
    → ls ≡ ls'
    → Path (List SessionRow × (List MessageRow × List LessonRow)) (ss, (ms, ls)) (ss', (ms', ls'))
triple p q r i = (p i, (q i, r i))

-- If every message is in a session of its user, deleting a user's data leaves no session, message
-- or lesson of the user, keeps those of every other user, and returns the number of the messages.
pub delete_user_data-Erases :
    (user_id other : String) (db : Memory)
    → All (IsOwned db.sessions) db.messages
    → (user_id == other) ≡ false
    → (rows_of user_id (delete_user_data user_id db).0 ≡ ([], ([], [])))
      × (rows_of other (delete_user_data user_id db).0 ≡ rows_of other db)
      × ((delete_user_data user_id db).1 ≡ length (keep (of_user user_id) db.messages))
unfolding delete_user_data
delete_user_data-Erases user_id other db owned differs = (
  triple
      (dropped_rows_go (λ s. not (session_of user_id s)) (session_of user_id) db.sessions
        (All-any _ db.sessions (λ s same. ap not same)))
      (dropped_rows_go (λ m. not (in_session_of user_id db.sessions m)) (of_user user_id)
        db.messages (All-imp db.messages (owned_is_erased user_id db.sessions) owned))
      (dropped_rows_go (λ l. not (lesson_of user_id l)) (lesson_of user_id) db.lessons
        (All-any _ db.lessons (λ l same. ap not same))),
  triple
      (kept_rows_stay (λ s. not (session_of user_id s)) (session_of other) db.sessions
        (All-any _ db.sessions (λ s. is_other user_id other s.user_id differs)))
      (kept_rows_stay (λ m. not (in_session_of user_id db.sessions m)) (of_user other) db.messages
        (All-imp db.messages (λ m. others_message_stays user_id other db.sessions m differs) owned))
      (kept_rows_stay (λ l. not (lesson_of user_id l)) (lesson_of other) db.lessons
        (All-any _ db.lessons (λ l. is_other user_id other l.user_id differs))),
  refl,
)
