-- ===== src/Tests/Memories.antt =====
-- The memory store at concrete inputs.
use secure_claw.Base.{
  ℕ, String, ◌≡◌, refl, Bool, true, false, none, List, [], ◌∷◌, ◌==◌, ◌+◌, if◌then◌else◌, leb,
  length, any, keep, All, if_cases,
}
use secure_claw.Memory.{
  MessageParams, PatchRow, Memory, append_message, store_session, store_lessons, delete_user_data,
  of_user, is_category, is_unapplied, insert_lesson, store_harness_patch, get_active_patches,
  upsert_patch,
}
use secure_claw.Memory.Erasure.{rows_of}
use secure_claw.Memory.Lessons.{UniqueLessons, has_lesson, store_lessons-Grows}
use secure_claw.Memory.Patches.{DistinctIds, AddsNoRow, applied_patch_is_not_active}
use secure_claw.Memory.Runs.{After, Step, empty_memory, deletion_erases_user}
use secure_claw.Memory.{LessonRow}

abbrev learned : List (String × String)
learned = ("ask before deleting", "preference") ∷ ("be brief", "mood") ∷ []

abbrev from_alice : MessageParams
from_alice = record {
  session_id = "s1";
  user_id = "alice";
  role = "user";
  content = "hello";
  tool_calls_json = "";
  tool_call_id = "";
  tool_name = "";
  created_at = 10;
}

abbrev two_sessions : Memory
two_sessions =
    store_session "s2" "bob" "anthropic" 9 (store_session "s1" "alice" "anthropic" 9 empty_memory)

abbrev talked : Memory
talked = (append_message from_alice two_sessions).0

abbrev taught : Memory
taught = (store_lessons "bob" "s2" learned 11 talked 0).0

talked_once : length (keep (of_user "alice") talked.messages) ≡ 1
unfolding append_message store_session
talked_once = refl

erased_one : (delete_user_data "alice" taught).1 ≡ 1
unfolding delete_user_data append_message store_session store_lessons insert_lesson
erased_one = refl

taught-After : After empty_memory taught
unfolding store_session
taught-After =
    After.next
      (After.next
        (After.next (After.next After.here (Step.stores "s1" "alice" "anthropic" 9))
          (Step.stores "s2" "bob" "anthropic" 9))
        (Step.appends from_alice refl))
      (Step.learns "bob" "s2" learned 11)

deletion_erases_user_example :
    (rows_of "alice" (delete_user_data "alice" taught).0 ≡ ([], ([], [])))
    × (rows_of "bob" (delete_user_data "alice" taught).0 ≡ rows_of "bob" taught)
    × ((delete_user_data "alice" taught).1 ≡ length (keep (of_user "alice") taught.messages))
deletion_erases_user_example = deletion_erases_user "alice" "bob" taught-After refl

store_lessons-Grows_example :
    let out = store_lessons "bob" "s2" learned 11 talked 0 in
    UniqueLessons out.0.lessons
    × (out.1 + length talked.lessons ≡ 0 + length out.0.lessons)
    × ((p : LessonRow → Bool) → any p talked.lessons ≡ true → any p out.0.lessons ≡ true)
    × All (λ l. is_category l.1 ≡ true → has_lesson "bob" l.0 out.0 ≡ true) learned
unfolding append_message store_session
store_lessons-Grows_example = store_lessons-Grows "bob" "s2" learned 11 talked 0 tt

abbrev patch : String → Bool → ℕ → PatchRow
patch id applied confidence = record {
  id = id;
  patch_type = "tool_rule";
  target = "search";
  proposed_change = "check the query first";
  confidence = confidence;
  recommendation = "auto_apply";
  source_patterns = "[]";
  applied = applied;
  applied_at = none;
  generated_at = 5;
}

-- the patches by falling confidence
abbrev insert_patch : PatchRow → List PatchRow → List PatchRow
insert_patch p [] = p ∷ []
insert_patch p (q ∷ qs) =
    let rest = insert_patch p qs in if leb q.confidence p.confidence then p ∷ q ∷ qs else q ∷ rest

abbrev by_confidence : List PatchRow → List PatchRow
by_confidence [] = []
by_confidence (p ∷ ps) = insert_patch p (by_confidence ps)

insert_patch-All :
    (P : PatchRow → Type 0) (p : PatchRow) (rows : List PatchRow)
    → P p
    → All P rows
    → All P (insert_patch p rows)
insert_patch-All P p [] h k = (h, tt)
insert_patch-All P p (q ∷ qs) h k =
    if_cases {A = List PatchRow} (All P) (leb q.confidence p.confidence) (λ e. (h, k))
      (λ e. (k.0, insert_patch-All P p qs h k.1))

by_confidence-AddsNoRow : AddsNoRow by_confidence
by_confidence-AddsNoRow P [] h = tt
by_confidence-AddsNoRow P (p ∷ ps) h =
    insert_patch-All P p (by_confidence ps) h.0 (by_confidence-AddsNoRow P ps h.1)

abbrev patched : Memory
patched = record empty_memory {
  harness_patches = patch "p1" false 7 ∷ patch "p2" false 8 ∷ patch "p3" false 9 ∷ [];
}

applied_patch_is_not_active_example :
    All
      (λ p. is_unapplied p ≡ true × (p.id == "p2") ≡ false)
      (get_active_patches by_confidence 50 (store_harness_patch (patch "p2" true 8) patched).0)
    × DistinctIds (store_harness_patch (patch "p2" true 8) patched).0.harness_patches
applied_patch_is_not_active_example =
    applied_patch_is_not_active by_confidence (patch "p2" true 8) 50 patched by_confidence-AddsNoRow
      (refl, (refl, (refl, tt))) refl refl

-- a rejected patch, which is stored unapplied, is offered as active
rejected_is_offered :
    get_active_patches by_confidence 50 (store_harness_patch (patch "p4" false 1) empty_memory).0
    ≡ patch "p4" false 1 ∷ []
unfolding get_active_patches store_harness_patch upsert_patch
rejected_is_offered = refl
