-- ===== src/Evolution/Lessons.antt =====
-- packages/agent-runtime/src/harness-evolution/evolution-service.ts: the patches that are made from the
-- lessons of a session.
use secure_claw.Base.{
  ℕ, suc, String, ◌<>◌, true, List, [], ◌∷◌, if◌then◌else◌, length, keep, or_else,
}
use secure_claw.Base.Text.{slice_to}
use secure_claw.Base.Json.{str, bool}
use secure_claw.Agent.{AuditSeverity}
use secure_claw.Evolution.{Evolution, logged, log_event_of, store_pending_patch}
use secure_claw.Evolution.Validate.{
  EvolutionEnv, HarnessPatch, PatchType, PatchValidationResult, validate_patch,
}

pub data LessonCategory : Type 0 where
  mistake preference procedure fact : LessonCategory

-- `ExtractedLesson`
pub record Lesson : Type 0 where
  pub category : LessonCategory
  pub lesson_text : String

abbrev category_name : LessonCategory → String
category_name LessonCategory.mistake = "mistake"
category_name LessonCategory.preference = "preference"
category_name LessonCategory.procedure = "procedure"
category_name LessonCategory.fact = "fact"

abbrev patch_type_of : LessonCategory → PatchType
patch_type_of LessonCategory.mistake = PatchType.tool_rule
patch_type_of LessonCategory.preference = PatchType.system_instruction
patch_type_of LessonCategory.procedure = PatchType.system_instruction
patch_type_of LessonCategory.fact = PatchType.prompt_update

abbrev target_of : LessonCategory → String
target_of LessonCategory.mistake = "lesson_mistake_guard"
target_of LessonCategory.preference = "lesson_preference"
target_of LessonCategory.procedure = "lesson_procedure"
target_of LessonCategory.fact = "lesson_fact_injection"

module _ (env : EvolutionEnv) (timestamp : ℕ) where
  unfoldable pub lesson_patch : Lesson → ℕ → HarnessPatch
  unfolding slice_to
  lesson_patch lesson i = record {
    id = "patch-lesson-" <> (env.show timestamp <> ("-" <> env.show i));
    patch_type = patch_type_of lesson.category;
    target = target_of lesson.category;
    proposed_change = "[" <> (category_name lesson.category <> ("] " <> lesson.lesson_text));
    rationale = "Extracted from session analysis: " <> slice_to 100 lesson.lesson_text;
    confidence = 500;
    source_patterns = [];
    generated_at = timestamp;
  }

  -- one lesson of the loop
  unfoldable pub add_lesson : Lesson → ℕ → Evolution → Evolution
  unfolding lesson_patch store_pending_patch validate_patch
  add_lesson lesson i st =
      let patch = lesson_patch lesson i in
      let validation = validate_patch env patch in
      if validation.valid
      then logged env
          (log_event_of "HARNESS_LESSON_PATCH_GENERATED"
            (("patch_id", str patch.id)
              ∷ ("lesson_category", str (category_name lesson.category))
              ∷ ("validation_valid", bool true)
              ∷ [])
            AuditSeverity.info)
          (store_pending_patch env patch validation timestamp st)
      else logged env
          (log_event_of "HARNESS_LESSON_PATCH_REJECTED"
            (("patch_id", str patch.id)
              ∷ ("lesson_category", str (category_name lesson.category))
              ∷ ("validation_reason", str (or_else validation.reason ""))
              ∷ [])
            AuditSeverity.warn)
          st

  -- `generatePatchesFromLessons`: the state, and the patches with their validation
  unfoldable pub generate_patches_from_lessons :
      List Lesson → ℕ → Evolution → Evolution × List (HarnessPatch × PatchValidationResult)
  unfolding add_lesson lesson_patch validate_patch
  generate_patches_from_lessons [] i st = (st, [])
  generate_patches_from_lessons (lesson ∷ lessons) i st =
      let (st', results) = generate_patches_from_lessons lessons (suc i) (add_lesson lesson i st) in
      (st', (lesson_patch lesson i, validate_patch env (lesson_patch lesson i)) ∷ results)

  -- `finalizeSession`
  unfoldable pub finalize_session : List Lesson → Evolution → Evolution × ℕ
  unfolding generate_patches_from_lessons
  finalize_session lessons st =
      let (st', results) = generate_patches_from_lessons lessons 0 st in
      (st', length (keep (λ r. r.1.valid) results))
