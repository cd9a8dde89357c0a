-- ===== src/Evolution/Approval.antt =====
-- That only a call of `applyPatch` applies a patch.
use secure_claw.Base.{
  ℕ, suc, String, ◌≡◌, refl, ap, ◌∙◌, Bool, true, false, not, ◌&&◌, ◌||◌, Option, none, some, List,
  [], ◌∷◌, ◌==◌, arith, leb, ltb, if_cases, eq_iff,
}
use secure_claw.Base.Dict
use secure_claw.Base.Dict.{Dict, get-set}
use secure_claw.Evolution.{
  Evolution, stored_as, is_applied, store_patch, store_pending_patch, identified, is_known, evolve,
  gate_confidence, gate_terms, apply_patch, clear_patches,
}
use secure_claw.Evolution.Lessons.{Lesson, lesson_patch, add_lesson, generate_patches_from_lessons}
use secure_claw.Evolution.Validate.{EvolutionEnv, HarnessPatch, validate_patch}
use secure_claw.Evolution.Laws.{Step, evolves, learns, applies, clears, is_valid, not-false}

module _ (env : EvolutionEnv) (k : String) where
  -- whether the patch of the id is applied
  abbrev pub applied_in : Evolution → Bool
  applied_in st = is_applied (Dict.get st.patch_store k)

  store_patch-applied :
      (patch : HarnessPatch) (applied : Bool) (now : ℕ) (st : Evolution)
      → applied_in (store_patch env patch applied now st)
        ≡ (applied_in st || ((patch.id == k) && applied))
  unfolding store_patch
  store_patch-applied patch applied now st =
      if_cases {A = Evolution} (λ s. applied_in s ≡ (applied_in st || ((patch.id == k) && applied)))
        (is_applied (Dict.get st.patch_store patch.id)) (λ e. ground (arith, eq_iff patch.id k))
        (λ e.
          ap is_applied (get-set st.patch_store patch.id k (stored_as patch applied now))
          ∙ ground (arith, eq_iff patch.id k))

  store_pending_patch-applied :
      (patch : HarnessPatch) (now : ℕ) (st : Evolution)
      → applied_in (store_pending_patch env patch (validate_patch env patch) now st) ≡ applied_in st
  unfolding store_pending_patch
  store_pending_patch-applied patch now st = store_patch-applied patch false now _ ∙ ground arith

  evolve-applied :
      (patches : List (HarnessPatch × ℕ)) (now : ℕ) (st : Evolution) (counts : ℕ × ℕ)
      → applied_in (evolve env patches now st counts).0 ≡ applied_in st
  unfolding evolve
  evolve-applied [] now st counts = refl
  evolve-applied (generated ∷ rest) now st counts =
      let patch = identified env generated in
      if_cases {A = Evolution × (ℕ × ℕ)} (λ r. applied_in r.0 ≡ applied_in st)
        (is_known env patch.id st) (λ known. evolve-applied rest now st counts)
        (λ fresh.
          if_cases {A = Evolution × (ℕ × ℕ)} (λ r. applied_in r.0 ≡ applied_in st)
            (is_valid env patch)
            (λ valid. evolve-applied rest now _ _ ∙ store_pending_patch-applied patch now _)
            (λ invalid.
              evolve-applied rest now _ _ ∙ (store_patch-applied patch false now _ ∙ ground arith)))

  lessons-applied :
      (timestamp : ℕ) (lessons : List Lesson) (i : ℕ) (st : Evolution)
      → applied_in (generate_patches_from_lessons env timestamp lessons i st).0 ≡ applied_in st
  unfolding generate_patches_from_lessons add_lesson
  lessons-applied timestamp [] i st = refl
  lessons-applied timestamp (lesson ∷ lessons) i st =
      lessons-applied timestamp lessons (suc i) (add_lesson env timestamp lesson i st)
      ∙ if_cases {A = Evolution} (λ s. applied_in s ≡ applied_in st)
          (is_valid env (lesson_patch env timestamp lesson i))
          (λ valid. store_pending_patch-applied _ timestamp st) (λ invalid. refl)

  abbrev Gated : HarnessPatch → Evolution → Evolution → Type 0
  Gated patch st after =
      applied_in after ≡ true
      → applied_in st ≡ false
      → ((patch.id == k) && (is_valid env patch && leb 700 patch.confidence)) ≡ true

  kept-Gated :
      (patch : HarnessPatch) (now : ℕ) (st : Evolution)
      → Gated patch st (store_patch env patch false now st)
  kept-Gated patch now st e before = absurd (ground (arith, store_patch-applied patch false now st))

  gate_confidence-Gated :
      (patch : HarnessPatch) (now : ℕ) (st : Evolution)
      → is_valid env patch ≡ true
      → Gated patch st (gate_confidence env patch now st).0
  unfolding gate_confidence
  gate_confidence-Gated patch now st valid =
      if_cases {A = Evolution × (Bool × String)} (λ r. Gated patch st r.0)
        (ltb patch.confidence 300) (λ low. kept-Gated patch now st)
        (λ not_low.
          if_cases {A = Evolution × (Bool × String)} (λ r. Gated patch st r.0)
            (ltb patch.confidence 700) (λ middle. kept-Gated patch now st)
            (λ high e before. ground (arith, store_patch-applied patch true now st, valid)))

  gate_terms-Gated :
      (o : Option String) (patch : HarnessPatch) (now : ℕ) (st : Evolution)
      → is_valid env patch ≡ true
      → Gated patch st (gate_terms env o patch now st).0
  gate_terms-Gated none patch now st valid e before =
      gate_confidence-Gated patch now st valid e before
  gate_terms-Gated (some term) patch now st valid e before = absurd (ground arith)

  apply_patch-Gated :
      (patch : HarnessPatch) (now : ℕ) (st : Evolution)
      → Gated patch st (apply_patch env patch now st).0
  unfolding apply_patch
  apply_patch-Gated patch now st =
      if_cases {A = Evolution × (Bool × String)} (λ r. Gated patch st r.0)
        (not (is_valid env patch)) (λ invalid. kept-Gated patch now st)
        (λ valid. gate_terms-Gated _ patch now st (not-false (is_valid env patch) valid))

-- The step was a call of `applyPatch` for a valid patch of the id, with a confidence of 0.7 or more.
abbrev pub AppliedByHand : EvolutionEnv → String → Evolution → Evolution → Type 0
AppliedByHand env k st after =
    (patch : HarnessPatch) × (now : ℕ) × (after ≡ (apply_patch env patch now st).0)
    × (((patch.id == k) && (is_valid env patch && leb 700 patch.confidence)) ≡ true)

-- A patch that was not applied is applied after a call of the service only if the call was
-- `applyPatch` for a patch of this id that passes the validation and has a confidence of 0.7 or
-- more; neither the analysis of sessions nor the lessons apply one.
pub only_apply_patch_applies :
    (env : EvolutionEnv) (k : String) {st after : Evolution}
    → Step env st after
    → applied_in env k after ≡ true
    → applied_in env k st ≡ false
    → AppliedByHand env k st after
unfolding clear_patches Dict.get
only_apply_patch_applies env k {st} (evolves patches now) e before =
    absurd (ground (arith, evolve-applied env k patches now st (0, 0)))
only_apply_patch_applies env k {st} (learns lessons timestamp) e before =
    absurd (ground (arith, lessons-applied env k timestamp lessons 0 st))
only_apply_patch_applies env k {st} (applies patch now) e before =
    (patch, now, refl, apply_patch-Gated env k patch now st e before)
only_apply_patch_applies env k {st} clears e before =
    let none_left : applied_in env k (clear_patches env st) ≡ false = refl in absurd (ground arith)
