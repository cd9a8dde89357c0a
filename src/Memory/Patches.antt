-- ===== src/Memory/Patches.antt =====
-- Which patches the memory store offers as active.
use secure_claw.Base.{
  if_cases, ℕ, String, ◌≡◌, refl, Bool, true, false, not, ◌&&◌, ◌||◌, List, [], ◌∷◌, ◌==◌, arith,
  any, keep, All, eq_iff,
}
use mathlib.Core.Path.{subst}
use secure_claw.Base.Slices.{All-take}
use secure_claw.Sanitizer.Service.{Outcome}
use secure_claw.Memory.{
  PatchRow, Memory, is_patch_type, is_unapplied, upsert_patch, store_harness_patch,
  get_active_patches,
}

module _ (id : String) where
  -- a row of the id that is offered as active
  abbrev pub is_active : List PatchRow → Bool
  is_active = any (λ p. (p.id == id) && is_unapplied p)

  abbrev pub has_patch : List PatchRow → Bool
  has_patch = any (λ p. p.id == id)

-- No two rows have one id, as the primary key has it.
abbrev pub DistinctIds : List PatchRow → Type 0
DistinctIds [] = Unit
DistinctIds (p ∷ ps) = (has_patch p.id ps ≡ false) × DistinctIds ps

absent_is_inactive :
    (id : String) (rows : List PatchRow) → has_patch id rows ≡ false → is_active id rows ≡ false
absent_is_inactive id [] h = refl
absent_is_inactive id (p ∷ ps) h = ground (arith, absent_is_inactive id ps)

is_active-upsert :
    (new : PatchRow) (rows : List PatchRow)
    → DistinctIds rows
    → is_active new.id (upsert_patch new rows)
      ≡ (not new.applied && (is_active new.id rows || not (has_patch new.id rows)))
unfolding upsert_patch
is_active-upsert new [] d = ground (arith, eq_iff new.id new.id)
is_active-upsert new (p ∷ ps) d = ground (
  arith,
  is_active-upsert new ps d.1,
  d.0,
  absent_is_inactive p.id ps,
  eq_iff p.id new.id,
  eq_iff new.id new.id,
)

has_patch-upsert :
    (id : String) (new : PatchRow) (rows : List PatchRow)
    → has_patch id (upsert_patch new rows) ≡ (has_patch id rows || (new.id == id))
unfolding upsert_patch
has_patch-upsert id new [] = ground arith
has_patch-upsert id new (p ∷ ps) =
    ground (arith, has_patch-upsert id new ps, eq_iff p.id new.id, eq_iff p.id id, eq_iff new.id id)

upsert-Distinct :
    (new : PatchRow) (rows : List PatchRow) → DistinctIds rows → DistinctIds (upsert_patch new rows)
unfolding upsert_patch
upsert-Distinct new [] d = (refl, tt)
upsert-Distinct new (p ∷ ps) d =
    if_cases DistinctIds (p.id == new.id)
      (λ same.
        (subst (λ u. has_patch u ps ≡ false) (ground (arith, same, eq_iff p.id new.id)) d.0, d.1))
      (λ other. (
        ground (
          arith,
          other,
          d.0,
          has_patch-upsert p.id new ps,
          eq_iff p.id new.id,
          eq_iff new.id p.id,
        ),
        upsert-Distinct new ps d.1,
      ))

-- an order that the rows of a query are put in, which adds no row
abbrev pub AddsNoRow : (List PatchRow → List PatchRow) → Type 1
AddsNoRow order = (P : PatchRow → Type 0) (rows : List PatchRow) → All P rows → All P (order rows)

-- An unapplied row that has the id is what makes the id active.
kept_are_active :
    (id : String) (rows : List PatchRow)
    → is_active id rows ≡ false
    → All (λ p. is_unapplied p ≡ true × (p.id == id) ≡ false) (keep is_unapplied rows)
kept_are_active id [] h = tt
kept_are_active id (p ∷ ps) h =
    if_cases (All (λ p. is_unapplied p ≡ true × (p.id == id) ≡ false)) (is_unapplied p)
      (λ e. ((e, ground (arith, e, h)), kept_are_active id ps (ground (arith, h))))
      (λ e. kept_are_active id ps (ground (arith, h)))

-- If no two rows have one id and the order adds no row, then after a patch that is applied was
-- stored without an exception no patch that is offered as active has its id, all that are offered
-- are unapplied, and still no two rows have one id.
pub applied_patch_is_not_active :
    (by_confidence : List PatchRow → List PatchRow) (new : PatchRow) (limit : ℕ) (db : Memory)
    → AddsNoRow by_confidence
    → DistinctIds db.harness_patches
    → new.applied ≡ true
    → is_patch_type new.patch_type ≡ true
    → All
        (λ p. is_unapplied p ≡ true × (p.id == new.id) ≡ false)
        (get_active_patches by_confidence limit (store_harness_patch new db).0)
      × DistinctIds (store_harness_patch new db).0.harness_patches
unfolding store_harness_patch get_active_patches
applied_patch_is_not_active by_confidence new limit db adds distinct applied typed =
    if_cases {A = Memory × Outcome {0} Unit}
      (λ out.
        All (λ p. is_unapplied p ≡ true × (p.id == new.id) ≡ false)
          (get_active_patches by_confidence limit out.0)
        × DistinctIds out.0.harness_patches)
      (is_patch_type new.patch_type)
      (λ e. (
        All-take _ _ (by_confidence (keep is_unapplied (upsert_patch new db.harness_patches))) (
            adds _ (keep is_unapplied (upsert_patch new db.harness_patches)) (
              kept_are_active new.id (upsert_patch new db.harness_patches)
                (ground (arith, applied, is_active-upsert new db.harness_patches distinct)))),
        upsert-Distinct new db.harness_patches distinct,
      ))
      (λ e. ground (arith, e, typed))
