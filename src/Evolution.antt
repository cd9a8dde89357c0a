-- ===== src/Evolution.antt =====
-- packages/agent-runtime/src/harness-evolution/evolution-service.ts: the patches of the harness, from
-- their validation to a human's application. A confidence is counted in thousandths. Hashing, the
-- pattern of vault placeholders, `toLowerCase` and the printing of numbers are parameters; the
-- analysis of sessions gives the list of generated patches. Tracing is left out.
pub mod Validate
pub mod Lessons
pub mod Laws
pub mod Approval
use secure_claw.Base.{
  ℕ, suc, ◌+◌, String, ◌<>◌, Bool, true, false, not, ◌&&◌, ◌||◌, Option, none, some, List, [], ◌∷◌,
  ◌++◌, map, ◌==◌, if◌then◌else◌, leb, ltb, is_some, length, keep, or_else,
}
use secure_claw.Base.Dict
use secure_claw.Base.Dict.{Dict}
use secure_claw.Base.Text.{includes, length_of, slice_to}
use secure_claw.Base.Json.{Json, num, str, bool}
use secure_claw.Agent.{AuditSeverity, AuditEvent}
use secure_claw.Evolution.Validate.{
  EvolutionEnv, HarnessPatch, PatchType, tool_rule, system_instruction, prompt_update,
  PatchValidationResult, validate_patch, type_name, find, blocked_terms,
}

-- a patch of the store
pub record StoredPatch : Type 0 where
  pub patch : HarnessPatch
  pub applied : Bool
  pub applied_at : Option ℕ

pub record PendingPatch : Type 0 where
  pub id : String
  pub patch : HarnessPatch
  pub stored_at : ℕ
  pub validation_result : PatchValidationResult

-- what the service does outside: events, and patches that are written to the memory store
pub data EvolutionEffect : Type 0 where
  logs : AuditEvent → EvolutionEffect
  persists : StoredPatch → (recommendation : String) → EvolutionEffect

pub record Evolution : Type 0 where
  pub patch_store : Dict StoredPatch
  pub pending_patches : Dict PendingPatch
  pub effects : List EvolutionEffect

abbrev pub new_evolution : Evolution
new_evolution = record { patch_store = []; pending_patches = []; effects = [] }

abbrev pub recommendation_of : ℕ → String
recommendation_of confidence =
    if leb 700 confidence then "apply" else if leb 300 confidence then "review" else "reject"

abbrev pub stored_as : HarnessPatch → Bool → ℕ → StoredPatch
stored_as patch applied now = record {
  patch = patch;
  applied = applied;
  applied_at = if applied then some now else none;
}

abbrev pub is_applied : Option StoredPatch → Bool
is_applied none = false
is_applied (some s) = s.applied

abbrev pub log_event_of : String → List (String × Json) → AuditSeverity → EvolutionEffect
log_event_of event_type payload severity =
    logs (record { event_type = event_type; payload = payload; severity = severity })

module _ (env : EvolutionEnv) where
  -- `storePatch`: a patch that is applied stays as it is
  unfoldable pub store_patch : HarnessPatch → Bool → ℕ → Evolution → Evolution
  unfolding Dict.get Dict.set
  store_patch patch applied now st =
      if is_applied (Dict.get st.patch_store patch.id) then st else record st {
        patch_store = Dict.set st.patch_store patch.id (stored_as patch applied now);
        effects =
            st.effects
            ++ (if env.has_memory
                then persists (stored_as patch applied now) (recommendation_of patch.confidence)
                  ∷ []
                else []);
      }

  -- `storePendingPatch`
  unfoldable pub store_pending_patch :
      HarnessPatch → PatchValidationResult → ℕ → Evolution → Evolution
  unfolding store_patch Dict.set
  store_pending_patch patch validation now st = store_patch patch false now (record st {
    pending_patches =
        Dict.set st.pending_patches patch.id (record {
          id = patch.id;
          patch = patch;
          stored_at = now;
          validation_result = validation;
        });
  })

  abbrev reason_field : PatchValidationResult → List (String × Json)
  reason_field validation = elim validation.reason [
    | none ↦ []
    | some reason ↦ if reason == "" then [] else ("validation_reason", str reason) ∷ []
  ]

  abbrev generated_event : HarnessPatch → PatchValidationResult → EvolutionEffect
  generated_event patch validation =
      log_event_of "HARNESS_PATCH_GENERATED"
        (("patch_id", str patch.id)
          ∷ ("confidence", num patch.confidence)
          ∷ ("pattern_type", str (type_name patch.patch_type))
          ∷ ("validation_valid", bool validation.valid)
          ∷ reason_field validation)
        AuditSeverity.info

  -- a patch of `evolve` with its id by content and its calculated confidence
  unfoldable pub identified : HarnessPatch × ℕ → HarnessPatch
  identified (patch, score) = record patch {
    id =
        env.sha256
          (type_name patch.patch_type <> (":" <> (patch.target <> (":" <> patch.proposed_change))));
    confidence = score;
  }

  abbrev pub is_known : String → Evolution → Bool
  is_known id st = is_some (Dict.get st.patch_store id) || is_some (Dict.get st.pending_patches id)

  abbrev pub logged : EvolutionEffect → Evolution → Evolution
  logged effect st = record st { effects = st.effects ++ effect ∷ [] }

  -- The loop of `evolve` over the generated patches, with the counts of those that are pending
  -- (`patchesApplied`) and rejected.
  unfoldable pub evolve : List (HarnessPatch × ℕ) → ℕ → Evolution → ℕ × ℕ → Evolution × (ℕ × ℕ)
  unfolding identified store_patch store_pending_patch validate_patch Dict.get
  evolve [] now st counts = (st, counts)
  evolve (generated ∷ rest) now st (patches_applied, patches_rejected) =
      let patch = identified generated in
      let validation = validate_patch env patch in
      let st' = logged (generated_event patch validation) st in
      if is_known patch.id st
      then evolve rest now st (patches_applied, patches_rejected)
      else if validation.valid
      then evolve rest now (store_pending_patch patch validation now st')
          (suc patches_applied, patches_rejected)
      else evolve rest now (store_patch patch false now st') (patches_applied, suc patches_rejected)

  abbrev applied_event : HarnessPatch → EvolutionEffect
  applied_event patch =
      log_event_of "HARNESS_PATCH_APPLIED"
        (("patch_id", str patch.id) ∷ ("confidence", num patch.confidence) ∷ []) AuditSeverity.info

  abbrev pub remove_pending : String → Evolution → Evolution
  remove_pending id st = record st { pending_patches = Dict.delete st.pending_patches id }

  -- `applyPatch` from the gate of the confidence
  unfoldable pub gate_confidence : HarnessPatch → ℕ → Evolution → Evolution × (Bool × String)
  unfolding store_patch Dict.delete
  gate_confidence patch now st =
      let shown = env.to_fixed patch.confidence in
      if ltb patch.confidence 300
      then (
        store_patch patch false now st,
        (false, "Confidence " <> (shown <> " below reject threshold (0.3)")),
      )
      else if ltb patch.confidence 700
      then (
        store_patch patch false now st,
        (false, "Confidence " <> (shown <> " requires human review (range: 0.3–0.7)")),
      )
      else (
        logged (applied_event patch) (remove_pending patch.id (store_patch patch true now st)),
        (true, "Applied (confidence " <> (shown <> " >= 0.7)")),
      )

  -- `applyPatch` from its loop over the blocked terms
  abbrev pub gate_terms : Option String → HarnessPatch → ℕ → Evolution → Evolution × (Bool × String)
  gate_terms (some term) patch now st =
      (st, (false, "Security gate: contains blocked term \"" <> (term <> "\"")))
  gate_terms none patch now st = gate_confidence patch now st

  abbrev reason_of : PatchValidationResult → String
  reason_of validation = or_else validation.reason "undefined"

  -- `applyPatch`: the state, whether the patch is applied, and the reason
  unfoldable pub apply_patch : HarnessPatch → ℕ → Evolution → Evolution × (Bool × String)
  unfolding validate_patch includes
  apply_patch patch now st =
      if not (validate_patch env patch).valid
      then (
        store_patch patch false now st,
        (false, "Validation failed: " <> reason_of (validate_patch env patch)),
      )
      else gate_terms (find (includes (env.to_lower_case patch.proposed_change)) blocked_terms)
          patch now st

  -- `clearPatches`
  unfoldable pub clear_patches : Evolution → Evolution
  clear_patches st = record st { patch_store = []; pending_patches = [] }
