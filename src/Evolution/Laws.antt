-- ===== src/Evolution/Laws.antt =====
-- Which patches are pending and which are applied, over time.
use secure_claw.Base.{
  ℕ, suc, String, ◌≡◌, refl, sym, Bool, true, false, not, ◌&&◌, ◌||◌, Option, none, some, List, [],
  ◌∷◌, arith, leb, ltb, if_cases,
}
use secure_claw.Base.Dict
use secure_claw.Base.Dict.{Dict, AllValues, AllValues-set, AllValues-delete, get-set, get-delete}
use secure_claw.Evolution.{
  StoredPatch, PendingPatch, Evolution, new_evolution, stored_as, is_applied, store_patch,
  store_pending_patch, identified, is_known, evolve, gate_confidence, gate_terms, apply_patch,
  clear_patches,
}
use secure_claw.Evolution.Lessons.{Lesson, lesson_patch, add_lesson, generate_patches_from_lessons}
use secure_claw.Evolution.Validate.{EvolutionEnv, HarnessPatch, validate_patch}

pub not-false : (b : Bool) → not b ≡ false → b ≡ true
not-false true h = refl
not-false false h = sym h

module _ (env : EvolutionEnv) where
  abbrev pub is_valid : HarnessPatch → Bool
  is_valid patch = (validate_patch env patch).valid

  -- An applied patch is valid and has a confidence of 0.7 or more.
  abbrev pub IsApplicable : StoredPatch → Type 0
  IsApplicable s = (not s.applied || (is_valid s.patch && leb 700 s.patch.confidence)) ≡ true

  -- A pending patch is valid.
  abbrev pub IsReviewable : PendingPatch → Type 0
  IsReviewable p = is_valid p.patch ≡ true

  abbrev pub IsSafe : Evolution → Type 0
  IsSafe st = AllValues IsApplicable st.patch_store × AllValues IsReviewable st.pending_patches

  store_patch-IsSafe :
      (patch : HarnessPatch) (applied : Bool) (now : ℕ) (st : Evolution)
      → IsApplicable (stored_as patch applied now)
      → IsSafe st
      → IsSafe (store_patch env patch applied now st)
  unfolding store_patch
  store_patch-IsSafe patch applied now st h (s, p) =
      if_cases IsSafe (is_applied (Dict.get st.patch_store patch.id)) (λ e. (s, p))
        (λ e. (AllValues-set IsApplicable st.patch_store patch.id _ s h, p))

  store_pending_patch-IsSafe :
      (patch : HarnessPatch) (now : ℕ) (st : Evolution)
      → is_valid patch ≡ true
      → IsSafe st
      → IsSafe (store_pending_patch env patch (validate_patch env patch) now st)
  unfolding store_pending_patch
  store_pending_patch-IsSafe patch now st h (s, p) =
      store_patch-IsSafe patch false now _ refl
        (s, AllValues-set IsReviewable st.pending_patches patch.id _ p h)

  evolve-IsSafe :
      (patches : List (HarnessPatch × ℕ)) (now : ℕ) (st : Evolution) (counts : ℕ × ℕ)
      → IsSafe st
      → IsSafe (evolve env patches now st counts).0
  unfolding evolve
  evolve-IsSafe [] now st counts h = h
  evolve-IsSafe (generated ∷ rest) now st counts h =
      let patch = identified env generated in
      if_cases {A = Evolution × (ℕ × ℕ)} (λ r. IsSafe r.0) (is_known env patch.id st)
        (λ known. evolve-IsSafe rest now st counts h)
        (λ fresh.
          if_cases {A = Evolution × (ℕ × ℕ)} (λ r. IsSafe r.0) (is_valid patch)
            (λ valid. evolve-IsSafe rest now _ _ (store_pending_patch-IsSafe patch now _ valid h))
            (λ invalid. evolve-IsSafe rest now _ _ (store_patch-IsSafe patch false now _ refl h)))

  gate_confidence-IsSafe :
      (patch : HarnessPatch) (now : ℕ) (st : Evolution)
      → is_valid patch ≡ true
      → IsSafe st
      → IsSafe (gate_confidence env patch now st).0
  unfolding gate_confidence
  gate_confidence-IsSafe patch now st valid h =
      if_cases {A = Evolution × (Bool × String)} (λ r. IsSafe r.0) (ltb patch.confidence 300)
        (λ low. store_patch-IsSafe patch false now st refl h)
        (λ not_low.
          if_cases {A = Evolution × (Bool × String)} (λ r. IsSafe r.0) (ltb patch.confidence 700)
            (λ middle. store_patch-IsSafe patch false now st refl h)
            (λ high.
              let (s, p) = store_patch-IsSafe patch true now st (ground arith) h in
              (s, AllValues-delete IsReviewable _ patch.id p)))

  gate_terms-IsSafe :
      (o : Option String) (patch : HarnessPatch) (now : ℕ) (st : Evolution)
      → is_valid patch ≡ true
      → IsSafe st
      → IsSafe (gate_terms env o patch now st).0
  gate_terms-IsSafe none patch now st valid h = gate_confidence-IsSafe patch now st valid h
  gate_terms-IsSafe (some term) patch now st valid h = h

  apply_patch-IsSafe :
      (patch : HarnessPatch) (now : ℕ) (st : Evolution)
      → IsSafe st
      → IsSafe (apply_patch env patch now st).0
  unfolding apply_patch
  apply_patch-IsSafe patch now st h =
      if_cases {A = Evolution × (Bool × String)} (λ r. IsSafe r.0) (not (is_valid patch))
        (λ invalid. store_patch-IsSafe patch false now st refl h)
        (λ valid. gate_terms-IsSafe _ patch now st (not-false (is_valid patch) valid) h)

  add_lesson-IsSafe :
      (timestamp : ℕ) (lesson : Lesson) (i : ℕ) (st : Evolution)
      → IsSafe st
      → IsSafe (add_lesson env timestamp lesson i st)
  unfolding add_lesson
  add_lesson-IsSafe timestamp lesson i st h =
      if_cases {A = Evolution} IsSafe (is_valid (lesson_patch env timestamp lesson i))
        (λ valid. store_pending_patch-IsSafe _ timestamp st valid h) (λ invalid. h)

  lessons-IsSafe :
      (timestamp : ℕ) (lessons : List Lesson) (i : ℕ) (st : Evolution)
      → IsSafe st
      → IsSafe (generate_patches_from_lessons env timestamp lessons i st).0
  unfolding generate_patches_from_lessons
  lessons-IsSafe timestamp [] i st h = h
  lessons-IsSafe timestamp (lesson ∷ lessons) i st h =
      lessons-IsSafe timestamp lessons (suc i) (add_lesson env timestamp lesson i st)
        (add_lesson-IsSafe timestamp lesson i st h)

-- the calls of the service
pub data Step (env : EvolutionEnv) (st : Evolution) : Evolution → Type 0 where
  evolves :
      (patches : List (HarnessPatch × ℕ)) (now : ℕ)
      → Step env st (evolve env patches now st (0, 0)).0
  learns :
      (lessons : List Lesson) (timestamp : ℕ)
      → Step env st (generate_patches_from_lessons env timestamp lessons 0 st).0
  applies : (patch : HarnessPatch) (now : ℕ) → Step env st (apply_patch env patch now st).0
  clears : Step env st (clear_patches env st)

pub data Reach (env : EvolutionEnv) : Evolution → Type 0 where
  start : Reach env new_evolution
  next : {st after : Evolution} → Reach env st → Step env st after → Reach env after

Step-IsSafe :
    (env : EvolutionEnv) {st after : Evolution}
    → Step env st after
    → IsSafe env st
    → IsSafe env after
unfolding clear_patches
Step-IsSafe env {st} (evolves patches now) h = evolve-IsSafe env patches now st (0, 0) h
Step-IsSafe env {st} (learns lessons timestamp) h = lessons-IsSafe env timestamp lessons 0 st h
Step-IsSafe env {st} (applies patch now) h = apply_patch-IsSafe env patch now st h
Step-IsSafe env clears h = (tt, tt)

-- Whatever patches the service is given, in every state that its calls lead to each applied patch
-- passes the validation and has a confidence of 0.7 or more, and each pending patch passes the
-- validation.
pub Reach-IsSafe : (env : EvolutionEnv) {st : Evolution} → Reach env st → IsSafe env st
Reach-IsSafe env start = (tt, tt)
Reach-IsSafe env (next r step) = Step-IsSafe env step (Reach-IsSafe env r)
