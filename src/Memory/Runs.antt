-- ===== src/Memory/Runs.antt =====
-- What can happen to the memory store over time: calls of the service, in any order.
use secure_claw.Base.{
  ℕ, String, ◌≡◌, ◌∙◌, Bool, true, false, not, ◌&&◌, ◌||◌, List, [], ◌∷◌, ◌==◌, arith, any, keep,
  length, All, All-imp, All-snoc, if_cases, any-left,
}
use secure_claw.Sanitizer.Service.{Outcome}
use secure_claw.Memory.{
  SessionRow, MessageParams, MessageRow, LessonRow, PatchRow, Memory, in_session_of, store_session,
  FinalizeParams, finalize_stored_session, append_message, is_role, insert_lesson, store_lessons,
  get_relevant_lessons, delete_user_data, is_category, same_lesson, store_harness_patch,
  is_patch_type, of_user,
}
use secure_claw.Memory.Erasure.{rows_of, delete_user_data-Erases}
use secure_claw.Memory.Ownership.{
  has_session, IsValid, IsValid-IsOwned, DistinctSessions-snoc, DistinctSessions-keep,
  DistinctSessions-finalized, in_session-finalized, in_session-delete,
}

abbrev pub empty_memory : Memory
empty_memory = record {
  sessions = [];
  messages = [];
  next_message = 1;
  lessons = [];
  next_lesson = 1;
  harness_patches = [];
}

-- the sessions hold one with the id and the user of a message
abbrev pub owns_session : MessageParams → Memory → Bool
owns_session params db =
    any (λ s. (s.id == params.session_id) && (s.user_id == params.user_id)) db.sessions

-- A message is appended to a session of its user, as the runtime does.
pub data Step (db : Memory) : Memory → Type 0 where
  stores :
      (id user_id provider : String) (created_at : ℕ)
      → Step db (store_session id user_id provider created_at db)
  appends :
      (params : MessageParams)
      → owns_session params db ≡ true
      → Step db (append_message params db).0
  finalizes : (params : FinalizeParams) → Step db (finalize_stored_session params db)
  learns :
      (user_id session_id : String) (lessons : List (String × String)) (now : ℕ)
      → Step db (store_lessons user_id session_id lessons now db 0).0
  recalls :
      (newest_first : List LessonRow → List LessonRow) (user_id : String) (limit : ℕ)
      → Step db (get_relevant_lessons newest_first user_id limit db).0
  patches : (new : PatchRow) → Step db (store_harness_patch new db).0
  erases : (user_id : String) → Step db (delete_user_data user_id db).0

-- the memories that follow one another
pub data After (db : Memory) : Memory → Type 0 where
  here : After db db
  next : {mid after : Memory} → After db mid → Step mid after → After db after

abbrev pub Valid : Memory → Type 0
Valid db = IsValid db.sessions db.messages

store_session-Valid :
    (id user_id provider : String) (created_at : ℕ) (db : Memory)
    → Valid db
    → Valid (store_session id user_id provider created_at db)
unfolding store_session
store_session-Valid id user_id provider created_at db v =
    if_cases Valid (has_session id db.sessions) (λ e. v)
      (λ e. (
        DistinctSessions-snoc db.sessions _ v.0 e,
        All-imp db.messages (λ m h. any-left _ db.sessions _ h) v.1,
      ))

append_message-Valid :
    (params : MessageParams) (db : Memory)
    → owns_session params db ≡ true
    → Valid db
    → Valid (append_message params db).0
unfolding append_message
append_message-Valid params db owned v =
    if_cases {A = Memory × Outcome ℕ} (λ out. Valid out.0) (not (is_role params.role)) (λ e. v)
      (λ e.
        if_cases {A = Memory × Outcome ℕ} (λ out. Valid out.0)
          (not (has_session params.session_id db.sessions)) (λ f. v)
          (λ f. (v.0, All-snoc _ db.messages v.1 owned)))

insert_lesson-Valid :
    (user_id session_id : String) (lesson : String × String) (now : ℕ) (db : Memory)
    → Valid db
    → Valid (insert_lesson user_id session_id lesson now db).0
unfolding insert_lesson
insert_lesson-Valid user_id session_id lesson now db v =
    if_cases {A = Memory × Bool} (λ out. Valid out.0)
      (any (same_lesson user_id lesson.0) db.lessons || not (is_category lesson.1)) (λ e. v)
      (λ e. v)

store_lessons-Valid :
    (user_id session_id : String) (lessons : List (String × String)) (now : ℕ) (db : Memory)
    (stored : ℕ)
    → Valid db
    → Valid (store_lessons user_id session_id lessons now db stored).0
unfolding store_lessons
store_lessons-Valid user_id session_id [] now db stored v = v
store_lessons-Valid user_id session_id (lesson ∷ lessons) now db stored v =
    store_lessons-Valid user_id session_id lessons now _ _
      (insert_lesson-Valid user_id session_id lesson now db v)

messages-delete :
    (user_id : String) (sessions : List SessionRow) (messages : List MessageRow)
    → All (λ m. in_session_of m.message.user_id sessions m ≡ true) messages
    → All
        (λ m.
          in_session_of m.message.user_id (keep (λ s. not (s.user_id == user_id)) sessions) m
          ≡ true)
        (keep (λ m. not (in_session_of user_id sessions m)) messages)
messages-delete user_id sessions [] h = tt
messages-delete user_id sessions (m ∷ ms) h =
    if_cases
      (All (λ r.
        in_session_of r.message.user_id (keep (λ s. not (s.user_id == user_id)) sessions) r ≡ true))
      (not (in_session_of user_id sessions m))
      (λ e. (
        in_session-delete m user_id sessions (ground (arith, e)) ∙ h.0,
        messages-delete user_id sessions ms h.1,
      ))
      (λ e. messages-delete user_id sessions ms h.1)

Step-Valid : {db after : Memory} → Step db after → Valid db → Valid after
unfolding finalize_stored_session get_relevant_lessons store_harness_patch delete_user_data
Step-Valid {db} (Step.stores id user_id provider created_at) v =
    store_session-Valid id user_id provider created_at db v
Step-Valid {db} (Step.appends params owned) v = append_message-Valid params db owned v
Step-Valid {db} (Step.finalizes params) v = (
  DistinctSessions-finalized params db.sessions v.0,
  All-imp db.messages (λ m h. in_session-finalized params m.message.user_id m db.sessions ∙ h) v.1,
)
Step-Valid {db} (Step.learns user_id session_id lessons now) v =
    store_lessons-Valid user_id session_id lessons now db 0 v
Step-Valid {db} (Step.recalls newest_first user_id limit) v = v
Step-Valid {db} (Step.patches new) v =
    if_cases {A = Memory × Outcome {0} Unit} (λ out. Valid out.0) (is_patch_type new.patch_type)
      (λ e. v) (λ e. v)
Step-Valid {db} (Step.erases user_id) v =
    (DistinctSessions-keep _ db.sessions v.0, messages-delete user_id db.sessions db.messages v.1)

pub After-Valid : {db : Memory} → After empty_memory db → Valid db
After-Valid After.here = (tt, tt)
After-Valid (After.next r step) = Step-Valid step (After-Valid r)

-- In every memory that calls of the service lead to from an empty one, messages being appended to
-- sessions of their user, deleting a user's data leaves no session, message or lesson of the user,
-- keeps those of every other user, and returns the number of the user's messages.
pub deletion_erases_user :
    (user_id other : String) {db : Memory}
    → After empty_memory db
    → (user_id == other) ≡ false
    → (rows_of user_id (delete_user_data user_id db).0 ≡ ([], ([], [])))
      × (rows_of other (delete_user_data user_id db).0 ≡ rows_of other db)
      × ((delete_user_data user_id db).1 ≡ length (keep (of_user user_id) db.messages))
deletion_erases_user user_id other {db} r differs =
    delete_user_data-Erases user_id other db
      (IsValid-IsOwned db.sessions db.messages (After-Valid r)) differs
