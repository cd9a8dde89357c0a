-- ===== src/Memory.antt =====
-- packages/memory-store/src/db/schema.ts and memory.service.ts: sessions, messages, lessons and patches.
-- A table is the list of its rows; the counters are the next ids, which are never used twice.
-- The sorts of the queries are parameters, and a limit is a natural number. Embeddings, the search by
-- words, the recall of lessons by a query, and the backup are left out.
pub mod Erasure
pub mod Lessons
pub mod Ownership
pub mod Patches
pub mod Runs
use secure_claw.Base.{
  ℕ, suc, ◌+◌, String, Bool, true, false, not, ◌&&◌, ◌||◌, Option, none, some, List, [], ◌∷◌, ◌++◌,
  map, ◌==◌, if◌then◌else◌, leb, nat_eq, length, any, keep,
}
use secure_claw.Base.Slices.{take}
use secure_claw.Sanitizer.Service.{Outcome, returns, throws}

pub record SessionRow : Type 0 where
  pub id : String
  pub user_id : String
  pub provider : String
  pub created_at : ℕ
  pub ended_at : Option ℕ
  pub input_tokens : ℕ
  pub output_tokens : ℕ
  pub cost_usd : ℕ
  pub tool_call_count : ℕ

pub record MessageParams : Type 0 where
  pub session_id : String
  pub user_id : String
  pub role : String
  pub content : String
  pub tool_calls_json : String
  pub tool_call_id : String
  pub tool_name : String
  pub created_at : ℕ

-- a row of `messages`: its id and its columns
pub record MessageRow : Type 0 where
  pub id : ℕ
  pub message : MessageParams

pub record LessonRow : Type 0 where
  pub id : ℕ
  pub user_id : String
  pub source_session_id : String
  pub lesson_text : String
  pub category : String
  pub created_at : ℕ
  pub access_count : ℕ

pub record PatchRow : Type 0 where
  pub id : String
  pub patch_type : String
  pub target : String
  pub proposed_change : String
  pub confidence : ℕ
  pub recommendation : String
  pub source_patterns : String
  pub applied : Bool
  pub applied_at : Option ℕ
  pub generated_at : ℕ

-- The tables of the service's `db`, without those of the search and the embeddings.
pub record Memory : Type 0 where
  pub sessions : List SessionRow
  pub messages : List MessageRow
  pub next_message : ℕ
  pub lessons : List LessonRow
  pub next_lesson : ℕ
  pub harness_patches : List PatchRow

-- `storeSession`: a session that is there stays
unfoldable pub store_session : String → String → String → ℕ → Memory → Memory
store_session id user_id provider created_at db =
    if any (λ s. s.id == id) db.sessions then db else record db {
      sessions =
          db.sessions
          ++ record {
            id = id;
            user_id = user_id;
            provider = provider;
            created_at = created_at;
            ended_at = none;
            input_tokens = 0;
            output_tokens = 0;
            cost_usd = 0;
            tool_call_count = 0;
          }
            ∷ [];
    }

pub record FinalizeParams : Type 0 where
  pub session_id : String
  pub ended_at : ℕ
  pub input_tokens : ℕ
  pub output_tokens : ℕ
  pub cost_usd : ℕ
  pub tool_call_count : ℕ

abbrev pub finalized : FinalizeParams → SessionRow → SessionRow
finalized params s =
    if s.id == params.session_id
    then record s {
      ended_at = some params.ended_at;
      input_tokens = params.input_tokens;
      output_tokens = params.output_tokens;
      cost_usd = params.cost_usd;
      tool_call_count = params.tool_call_count;
    }
    else s

-- `finalizeSession` of the memory store
unfoldable pub finalize_stored_session : FinalizeParams → Memory → Memory
finalize_stored_session params db = record db { sessions = map (finalized params) db.sessions }

abbrev is_role : String → Bool
is_role role = (role == "user") || (role == "assistant") || (role == "tool")

-- `appendMessage`, which the CHECK of the role and the reference to the session can refuse
unfoldable pub append_message : MessageParams → Memory → Memory × Outcome ℕ
append_message params db =
    if not (is_role params.role)
    then (db, throws "CHECK constraint failed")
    else if not (any (λ s. s.id == params.session_id) db.sessions)
    then (db, throws "FOREIGN KEY constraint failed")
    else (
      record db {
        messages = db.messages ++ record { id = db.next_message; message = params } ∷ [];
        next_message = suc db.next_message;
      },
      returns db.next_message,
    )

-- `Math.min(limit, cap)`
abbrev pub capped : ℕ → ℕ → ℕ
capped limit cap = if leb limit cap then limit else cap

abbrev reverse {ℓ} : {A : Type ℓ} → List A → List A
reverse [] = []
reverse (x ∷ xs) = reverse xs ++ x ∷ []

abbrev pub of_user : String → MessageRow → Bool
of_user user_id m = m.message.user_id == user_id

unfoldable pub get_recent_messages :
    (List MessageRow → List MessageRow) → String → ℕ → Memory → List MessageRow
get_recent_messages newest_first user_id limit db =
    reverse (take (capped limit 100) (newest_first (keep (of_user user_id) db.messages)))

abbrev pub is_category : String → Bool
is_category category =
    (category == "mistake")
    || (category == "preference")
    || (category == "procedure")
    || (category == "fact")

abbrev pub same_lesson : String → String → LessonRow → Bool
same_lesson user_id lesson_text l = (l.user_id == user_id) && (l.lesson_text == lesson_text)

-- the INSERT OR IGNORE of a lesson: the table, and whether a row was added
unfoldable pub insert_lesson : String → String → String × String → ℕ → Memory → Memory × Bool
insert_lesson user_id session_id (lesson_text, category) now db =
    if any (same_lesson user_id lesson_text) db.lessons || not (is_category category)
    then (db, false)
    else (
      record db {
        lessons =
            db.lessons
            ++ record {
              id = db.next_lesson;
              user_id = user_id;
              source_session_id = session_id;
              lesson_text = lesson_text;
              category = category;
              created_at = now;
              access_count = 0;
            }
              ∷ [];
        next_lesson = suc db.next_lesson;
      },
      true,
    )

-- `storeLessons`, with the number of stored lessons so far; a lesson is its text and its category
unfoldable pub store_lessons :
    String → String → List (String × String) → ℕ → Memory → ℕ → Memory × ℕ
unfolding insert_lesson
store_lessons user_id session_id [] now db stored = (db, stored)
store_lessons user_id session_id (lesson ∷ lessons) now db stored =
    let (db', added) = insert_lesson user_id session_id lesson now db in
    store_lessons user_id session_id lessons now db' (if added then suc stored else stored)

abbrev pub lesson_of : String → LessonRow → Bool
lesson_of user_id l = l.user_id == user_id

-- `listLessons` with its cap, and the recent lessons of `getRelevantLessons` with another one
unfoldable pub list_lessons :
    (List LessonRow → List LessonRow) → String → ℕ → ℕ → Memory → List LessonRow
list_lessons newest_first user_id limit cap db =
    take (capped limit cap) (newest_first (keep (lesson_of user_id) db.lessons))

abbrev count_access : List LessonRow → LessonRow → LessonRow
count_access read l =
    if any (λ r. nat_eq r.id l.id) read then record l { access_count = suc l.access_count } else l

-- `getRelevantLessons` without a query: the rows as they were read, and their counts one higher
unfoldable pub get_relevant_lessons :
    (List LessonRow → List LessonRow) → String → ℕ → Memory → Memory × List LessonRow
unfolding list_lessons
get_relevant_lessons newest_first user_id limit db =
    let read = list_lessons newest_first user_id limit 20 db in
    (record db { lessons = map (count_access read) db.lessons }, read)

-- ON DELETE CASCADE: whether a message's session is one of a user
abbrev pub in_session_of : String → List SessionRow → MessageRow → Bool
in_session_of user_id sessions m =
    any (λ s. (s.id == m.message.session_id) && (s.user_id == user_id)) sessions

-- `deleteUserData`
unfoldable pub delete_user_data : String → Memory → Memory × ℕ
delete_user_data user_id db = (
  record db {
    sessions = keep (λ s. not (s.user_id == user_id)) db.sessions;
    messages = keep (λ m. not (in_session_of user_id db.sessions m)) db.messages;
    lessons = keep (λ l. not (lesson_of user_id l)) db.lessons;
  },
  length (keep (of_user user_id) db.messages),
)

abbrev merged : PatchRow → PatchRow → PatchRow
merged new old = record new {
  generated_at = old.generated_at;
  applied = old.applied || new.applied;
  applied_at = if old.applied then old.applied_at else new.applied_at;
}

-- the INSERT ... ON CONFLICT(id) DO UPDATE of a patch
unfoldable pub upsert_patch : PatchRow → List PatchRow → List PatchRow
upsert_patch new [] = new ∷ []
upsert_patch new (p ∷ ps) =
    let rest = upsert_patch new ps in if p.id == new.id then merged new p ∷ ps else p ∷ rest

abbrev pub is_patch_type : String → Bool
is_patch_type patch_type =
    (patch_type == "prompt_update")
    || (patch_type == "tool_rule")
    || (patch_type == "system_instruction")

-- `storeHarnessPatch`, which the CHECK of the type can refuse
unfoldable pub store_harness_patch : PatchRow → Memory → Memory × Outcome {0} Unit
unfolding upsert_patch
store_harness_patch new db =
    if is_patch_type new.patch_type
    then (record db { harness_patches = upsert_patch new db.harness_patches }, returns tt)
    else (db, throws "CHECK constraint failed")

abbrev pub is_unapplied : PatchRow → Bool
is_unapplied p = not p.applied

unfoldable pub get_active_patches : (List PatchRow → List PatchRow) → ℕ → Memory → List PatchRow
get_active_patches by_confidence limit db =
    take (capped limit 200) (by_confidence (keep is_unapplied db.harness_patches))
