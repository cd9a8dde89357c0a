-- ===== src/Vault.antt =====
-- packages/credential-vault/src/ref-store.ts and vault.service.ts: the references of secrets, and
-- the service over them and the keychain. The database is the list of its rows, in the order of
-- their insertion; the keychain is a function from service and account, and `can_use` says whether
-- the adapter of a service can store and delete. The backup, the rotation of keys and the scan of files are left out.
pub mod Inject
pub mod Refs
pub mod Laws
pub mod Stored
use secure_claw.Base.{
  String, ◌<>◌, Bool, true, false, not, ◌&&◌, Option, none, some, List, [], ◌∷◌, ◌++◌, ◌==◌,
  if◌then◌else◌, any, keep, is_some,
}
use secure_claw.Base.Json.{Json}
use secure_claw.Sanitizer.Service.{Outcome, returns, throws}

pub record SecretRef : Type 0 where
  pub ref_id : String
  pub service : String
  pub account : String
  pub created_at : String

abbrev pub is_of : String → String → SecretRef → Bool
is_of service account r = (r.service == service) && (r.account == account)

-- the first row that passes a test
unfoldable pub find_row : (SecretRef → Bool) → List SecretRef → Option SecretRef
find_row p [] = none
find_row p (r ∷ rs) = let rest = find_row p rs in if p r then some r else rest

unfoldable pub get_ref : String → List SecretRef → Option SecretRef
unfolding find_row
get_ref ref_id refs = find_row (λ r. r.ref_id == ref_id) refs

unfoldable pub find_ref : String → String → List SecretRef → Option SecretRef
unfolding find_row
find_ref service account refs = find_row (is_of service account) refs

-- the INSERT, which the primary key can refuse
unfoldable pub insert_ref : SecretRef → List SecretRef → Outcome (List SecretRef)
insert_ref row refs =
    if any (λ r. r.ref_id == row.ref_id) refs
    then throws "UNIQUE constraint failed: secret_refs.ref_id"
    else returns (refs ++ row ∷ [])

abbrev pub inserted : String → Outcome (List SecretRef) → Outcome (List SecretRef × String)
inserted ref_id (throws message) = throws message
inserted ref_id (returns refs) = returns (refs, ref_id)

-- `upsertRef`, with the random id and the time
unfoldable pub upsert_ref :
    String → String → String → String → List SecretRef → Outcome (List SecretRef × String)
unfolding find_ref insert_ref
upsert_ref service account uuid now refs = elim (find_ref service account refs) [
  | some existing ↦ returns (refs, existing.ref_id)
  | none ↦ inserted uuid (
      insert_ref (record { ref_id = uuid; service = service; account = account; created_at = now })
        refs)
]

unfoldable pub delete_ref : String → String → List SecretRef → List SecretRef × Bool
delete_ref service account refs =
    (keep (λ r. not (is_of service account r)) refs, any (is_of service account) refs)

pub record Vault : Type 0 where
  pub refs : List SecretRef
  pub keychain : String → String → Option String

pub record SetSecretResult : Type 0 where
  pub ref_id : String
  pub success : Bool
  pub error_message : String

-- `keychain.set`
abbrev pub with_secret :
    String
    → String
    → Option String
    → (String → String → Option String)
    → String
    → String
    → Option String
with_secret service account value keychain s a =
    if (s == service) && (a == account) then value else keychain s a

-- the result of `setSecret`, after the keychain holds the value
unfoldable pub after_upsert :
    (String → String → Option String)
    → List SecretRef
    → Outcome (List SecretRef × String)
    → Vault × SetSecretResult
after_upsert keychain refs (throws message) = (
  record { refs = refs; keychain = keychain },
  record { ref_id = ""; success = false; error_message = message },
)
after_upsert keychain refs (returns (refs', ref_id)) = (
  record { refs = refs'; keychain = keychain },
  record { ref_id = ref_id; success = true; error_message = "" },
)

-- the result of `setSecret`, from the keychain's own
abbrev pub store :
    Outcome (Unit {0})
    → String
    → String
    → String
    → String
    → String
    → Vault
    → Vault × SetSecretResult
store (throws message) service account value uuid now v =
    (v, record { ref_id = ""; success = false; error_message = message })
store (returns _) service account value uuid now v =
    after_upsert (with_secret service account (some value) v.keychain) v.refs
      (upsert_ref service account uuid now v.refs)

-- `deleteSecret`, from the keychain's own
abbrev pub remove : Outcome (Unit {0}) → String → String → Vault → Outcome Vault
remove (throws message) service account v = throws ("Failed to delete secret: " <> message)
remove (returns _) service account v = returns (record {
  refs = (delete_ref service account v.refs).0;
  keychain = with_secret service account none v.keychain;
})

module _ (can_use : String → Outcome (Unit {0})) where
  unfoldable pub set_secret :
      String → String → String → String → String → Vault → Vault × SetSecretResult
  unfolding upsert_ref after_upsert
  set_secret service account value uuid now v =
      store (can_use service) service account value uuid now v

  unfoldable pub delete_secret : String → String → Vault → Outcome Vault
  unfolding delete_ref
  delete_secret service account v = remove (can_use service) service account v

-- `getSecretRef`: the id, and whether there is one
unfoldable pub get_secret_ref : String → String → Vault → String × Bool
unfolding find_ref
get_secret_ref service account v = elim (find_ref service account v.refs) [
  | none ↦ ("", false)
  | some r ↦ (r.ref_id, true)
]
