-- ===== src/Memory/Lessons.antt =====
-- What `storeLessons` leaves in the table of lessons.
use secure_claw.Base.{
  ℕ, suc, ◌+◌, String, ◌≡◌, refl, Bool, true, false, not, ◌||◌, List, [], ◌∷◌, ◌++◌, if◌then◌else◌,
  arith, length, any, All, eq_iff, if_cases, length-append, any-append, any-left, any-last,
}
use secure_claw.Memory.{LessonRow, Memory, is_category, same_lesson, insert_lesson, store_lessons}

abbrev pub has_lesson : String → String → Memory → Bool
has_lesson user_id lesson_text db = any (same_lesson user_id lesson_text) db.lessons

-- No two rows have one user and one text, as the unique index has it.
abbrev pub UniqueLessons : List LessonRow → Type 0
UniqueLessons [] = Unit
UniqueLessons (l ∷ ls) = (any (same_lesson l.user_id l.lesson_text) ls ≡ false) × UniqueLessons ls

UniqueLessons-append :
    (ls : List LessonRow) (new : LessonRow)
    → UniqueLessons ls
    → any (same_lesson new.user_id new.lesson_text) ls ≡ false
    → UniqueLessons (ls ++ new ∷ [])
UniqueLessons-append [] new u fresh = (refl, tt)
UniqueLessons-append (l ∷ ls) new u fresh = (
  ground (
    arith,
    u.0,
    fresh,
    any-append (same_lesson l.user_id l.lesson_text) ls (new ∷ []),
    eq_iff l.user_id new.user_id,
    eq_iff new.user_id l.user_id,
    eq_iff l.lesson_text new.lesson_text,
    eq_iff new.lesson_text l.lesson_text,
  ),
  UniqueLessons-append ls new u.1 (ground (arith, fresh)),
)

-- what storing one or more lessons does to the table, and the number of rows that it adds
abbrev pub Grows : Memory → Memory → ℕ → Type 0
Grows db db' added =
    UniqueLessons db'.lessons
    × (length db'.lessons ≡ added + length db.lessons)
    × ((p : LessonRow → Bool) → any p db.lessons ≡ true → any p db'.lessons ≡ true)

insert_lesson-Grows :
    (user_id session_id lesson_text category : String) (now : ℕ) (db : Memory)
    → UniqueLessons db.lessons
    → Grows db
        (insert_lesson user_id session_id (lesson_text, category) now db).0
        (if (insert_lesson user_id session_id (lesson_text, category) now db).1 then 1 else 0)
      × (is_category category ≡ true
          → has_lesson user_id lesson_text
              (insert_lesson user_id session_id (lesson_text, category) now db).0
            ≡ true)
unfolding insert_lesson
insert_lesson-Grows user_id session_id lesson_text category now db unique =
    if_cases {A = Memory × Bool}
      (λ out.
        Grows db out.0 (if out.1 then 1 else 0)
        × (is_category category ≡ true → has_lesson user_id lesson_text out.0 ≡ true))
      (has_lesson user_id lesson_text db || not (is_category category))
      (λ e. ((unique, omega arith, λ p h. h), λ typed. ground (arith, e, typed)))
      (λ e. (
        (
          UniqueLessons-append db.lessons _ unique (ground (arith, e)),
          omega (arith, length-append db.lessons (_ ∷ [])),
          λ p h. any-left p db.lessons _ h,
        ),
        λ typed.
            any-last (same_lesson user_id lesson_text) db.lessons
              (ground (arith, eq_iff user_id user_id, eq_iff lesson_text lesson_text)),
      ))

-- The number of lessons that storing reports is how many rows the table gains; every lesson with a
-- valid category is in the table afterwards, whether it was stored or was there before; and no two
-- rows have one user and one text, if that held before.
pub store_lessons-Grows :
    (user_id session_id : String) (lessons : List (String × String)) (now : ℕ) (db : Memory)
    (stored : ℕ)
    → UniqueLessons db.lessons
    → let out = store_lessons user_id session_id lessons now db stored in
      UniqueLessons out.0.lessons
      × (out.1 + length db.lessons ≡ stored + length out.0.lessons)
      × ((p : LessonRow → Bool) → any p db.lessons ≡ true → any p out.0.lessons ≡ true)
      × All (λ l. is_category l.1 ≡ true → has_lesson user_id l.0 out.0 ≡ true) lessons
unfolding store_lessons
store_lessons-Grows user_id session_id [] now db stored unique = (unique, refl, λ p h. h, tt)
store_lessons-Grows user_id session_id (lesson ∷ lessons) now db stored unique =
    let step = insert_lesson-Grows user_id session_id lesson.0 lesson.1 now db unique in
    let rest =
      store_lessons-Grows user_id session_id lessons now
        (insert_lesson user_id session_id lesson now db).0
        (if (insert_lesson user_id session_id lesson now db).1 then suc stored else stored)
        step.0.0 in
    (
      rest.0,
      ground (arith, rest.1, step.0.1),
      λ p h. rest.2 p (step.0.2 p h),
      (λ typed. rest.2 (same_lesson user_id lesson.0) (step.1 typed), rest.3),
    )
