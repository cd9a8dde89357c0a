-- ===== src/Evolution/Validate.antt =====
-- packages/agent-runtime/src/harness-evolution/evolution-service.ts, `validatePatch`, and the patch of
-- types.ts.
use secure_claw.Base.{
  ℕ, String, ◌<>◌, Bool, true, false, ◌&&◌, ◌||◌, Option, none, some, List, [], ◌∷◌, any,
  if◌then◌else◌, ltb,
}
use secure_claw.Base.Text.{includes, length_of}

pub data PatchType : Type 0 where
  prompt_update tool_rule system_instruction : PatchType

abbrev pub type_name : PatchType → String
type_name prompt_update = "prompt_update"
type_name tool_rule = "tool_rule"
type_name system_instruction = "system_instruction"

pub record HarnessPatch : Type 0 where
  pub id : String
  pub patch_type : PatchType
  pub target : String
  pub proposed_change : String
  pub rationale : String
  pub confidence : ℕ
  pub source_patterns : List String
  pub generated_at : ℕ

pub record PatchValidationResult : Type 0 where
  pub valid : Bool
  pub reason : Option String
  pub violated_invariant : Option String

pub record EvolutionEnv : Type 0 where
  pub sha256 : String → String
  pub to_lower_case : String → String
  -- `VAULT_PLACEHOLDER_RE.test`
  pub has_vault_placeholder : String → Bool
  pub show : ℕ → String
  pub to_fixed : ℕ → String
  -- whether there is a client of the memory store
  pub has_memory : Bool

-- `SECURITY_INVARIANTS`, which are in lower case
abbrev pub security_invariants : List String
security_invariants =
    "sandbox_mode" ∷ "tool_policy" ∷ "gateway_bind" ∷ "gateway_auth" ∷ "credential_storage"
    ∷ "session_isolation" ∷ "audit_logging" ∷ "injection_detection" ∷ []

abbrev pub modifying_words : List String
modifying_words =
    "change" ∷ "modify" ∷ "set" ∷ "update" ∷ "disable" ∷ "enable" ∷ "relax" ∷ "weaken" ∷ "override"
    ∷ "turn off" ∷ []

-- `BLOCKED_TERMS`
abbrev pub blocked_terms : List String
blocked_terms = "disable sandbox" ∷ "bypass" ∷ []

-- the test of the loop over the invariants
unfoldable pub touches : String → String → String → Bool
unfolding includes
touches target lower_change invariant =
    includes lower_change invariant
    && (any (includes lower_change) modifying_words || includes target invariant)

-- the first entry of a list that passes a test
abbrev pub find : (String → Bool) → List String → Option String
find p [] = none
find p (x ∷ xs) = let rest = find p xs in if p x then some x else rest

abbrev invalid : String → Option String → PatchValidationResult
invalid reason violated = record {
  valid = false;
  reason = some reason;
  violated_invariant = violated;
}

-- the blocked term that is found first, if there is one
abbrev with_term : Option String → PatchValidationResult
with_term none = record { valid = true; reason = none; violated_invariant = none }
with_term (some term) = invalid ("Security gate: contains blocked term \"" <> (term <> "\"")) none

-- the checks after that of the invariants
unfoldable pub check_rest : EvolutionEnv → HarnessPatch → PatchValidationResult
unfolding includes length_of
check_rest env patch =
    if env.has_vault_placeholder patch.proposed_change
    then invalid "Patch contains vault credential placeholder (__VAULT_REF:*__)"
        (some "credential_storage")
    else if ltb 500 (length_of patch.proposed_change)
    then invalid
        ("Patch proposedChange exceeds 500 characters (actual: "
          <> (env.show (length_of patch.proposed_change) <> ")"))
        none
    else with_term (find (includes (env.to_lower_case patch.proposed_change)) blocked_terms)

-- the invariant that is touched first, if there is one
abbrev with_invariant : Option String → PatchValidationResult → PatchValidationResult
with_invariant none rest = rest
with_invariant (some invariant) rest =
    invalid ("Patch attempts to modify security invariant: \"" <> (invariant <> "\""))
      (some invariant)

unfoldable pub validate_patch : EvolutionEnv → HarnessPatch → PatchValidationResult
unfolding touches check_rest
validate_patch env patch =
    with_invariant
      (find (touches patch.target (env.to_lower_case patch.proposed_change)) security_invariants)
      (check_rest env patch)
