-- ===== src/Tests/Evolving.antt =====
-- The evolution of the harness at concrete inputs.
use secure_claw.Base.{◌≡◌, refl, true, [], ◌∷◌}
use secure_claw.Base.Text.{includes}
use secure_claw.Evolution.{Evolution, new_evolution, evolve, apply_patch, gate_confidence}
use secure_claw.Evolution.Validate.{EvolutionEnv, HarnessPatch, PatchType, validate_patch}
use secure_claw.Evolution.Laws.{Step, Reach, IsSafe, Reach-IsSafe}
use secure_claw.Evolution.Approval.{AppliedByHand, only_apply_patch_applies}

abbrev evolution_env : EvolutionEnv
evolution_env = record {
  sha256 = λ s. s;
  to_lower_case = λ s. s;
  has_vault_placeholder = λ s. includes s "__VAULT_REF:";
  show = λ n. "7";
  to_fixed = λ n. "0.80";
  has_memory = true;
}

abbrev patch : HarnessPatch
patch = record {
  id = "p1";
  patch_type = PatchType.tool_rule;
  target = "shell_exec";
  proposed_change = "prefer short commands";
  rationale = "loops";
  confidence = 800;
  source_patterns = [];
  generated_at = 1;
}

abbrev evolved : Evolution
evolved = (evolve evolution_env ((patch, 800) ∷ []) 5 new_evolution (0, 0)).0

abbrev after : Evolution
after = (apply_patch evolution_env patch 6 evolved).0

Reach-IsSafe_example : IsSafe evolution_env after
Reach-IsSafe_example = Reach-IsSafe evolution_env (
    Reach.next (Reach.next Reach.start (Step.evolves ((patch, 800) ∷ []) 5)) (Step.applies patch 6))

only_apply_patch_applies_example : AppliedByHand evolution_env "p1" evolved after
unfolding apply_patch evolve gate_confidence
only_apply_patch_applies_example =
    only_apply_patch_applies evolution_env "p1" {st = evolved} {after = after}
      (Step.applies patch 6) refl refl

-- A patch whose target is a security invariant passes if its text does not name the invariant.
a_patch_of_an_invariant_passes :
    (validate_patch evolution_env
      (record patch { target = "sandbox_mode"; proposed_change = "off" })).valid
    ≡ true
unfolding validate_patch
a_patch_of_an_invariant_passes = refl
