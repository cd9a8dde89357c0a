-- ===== src/Tests/Vaults.antt =====
-- The vault at concrete inputs.
use secure_claw.Base.{String, ◌≡◌, refl, false, Option, none, some, [], ◌∷◌}
use secure_claw.Base.Json.{Json, Fields, str, obj, end, field}
use secure_claw.Sanitizer.Service.{Outcome, returns}
use secure_claw.Vault.{SecretRef, Vault, SetSecretResult, get_ref, set_secret}
use secure_claw.Vault.Inject.{vault_ref, parse_vault_ref, inject_object, inject_credential}
use secure_claw.Vault.Refs.{Unique, Step, Reach, Reach-Unique}
use secure_claw.Vault.Laws.{any_ref, injection_leaves_no_placeholder, injection_reads_one_service}
use secure_claw.Vault.Stored.{only_asks, filled, stored_secret_is_injected}

abbrev uuid : String
uuid = "550e8400-e29b-41d4-a716-446655440000"

abbrev row : SecretRef
row = record { ref_id = uuid; service = "mail"; account = "bob"; created_at = "now" }

abbrev keychain : String → Option String
keychain account = some "secret"

abbrev empty : Vault
empty = record { refs = []; keychain = λ service account. none }

abbrev usable : String → Outcome (Unit {0})
usable service = returns tt

abbrev stored : Vault × SetSecretResult
stored = set_secret usable "mail" "bob" "hunter2" uuid "now" empty

injection_leaves_no_placeholder_example : any_ref (field "password" (str "secret") end) ≡ false
unfolding inject_object parse_vault_ref get_ref
injection_leaves_no_placeholder_example =
    injection_leaves_no_placeholder keychain (row ∷ [])
      (field "password" (str (vault_ref uuid)) end) (field "password" (str "secret") end)
      (λ account s h. cc h) refl

-- a password beside a plain text, and a second placeholder in a nested object
abbrev login : Json → Fields
login password =
    field "user" (str "bob")
      (field "password" password (field "proxy" (obj (field "password" password end)) end))

stored_secret_is_injected_example :
    inject_credential stored.0 uuid (login (str (vault_ref uuid))) ≡ returns (login (str "hunter2"))
unfolding set_secret parse_vault_ref only_asks filled
stored_secret_is_injected_example =
    stored_secret_is_injected usable empty "mail" "bob" "hunter2" uuid "now"
      (login (str (vault_ref uuid))) tt refl refl refl

injection_reads_one_service_example :
    inject_credential
      (record { refs = row ∷ []; keychain = λ service account. some service })
      uuid
      end
    ≡ inject_credential
        (record { refs = row ∷ []; keychain = λ service account. some "mail" })
        uuid
        end
unfolding get_ref
injection_reads_one_service_example =
    injection_reads_one_service (row ∷ []) row uuid end (λ service account. some service)
      (λ service account. some "mail") refl refl

Reach-Unique_example : Unique stored.0.refs
Reach-Unique_example = Reach-Unique (
    Reach.next (Reach.start (λ service account. none))
      (Step.stores "mail" "bob" "hunter2" uuid "now"))
