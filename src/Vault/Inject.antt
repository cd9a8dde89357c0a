-- ===== src/Vault/Inject.antt =====
-- packages/credential-vault/src/injector.ts, `injectAllCredentials`, the placeholders of
-- packages/shared/src/schemas/credential.schema.ts, and `injectCredential` of vault.service.ts.
use Prim.Native.Char.{code}
use secure_claw.Base.{
  ℕ, zero, suc, String, ◌<>◌, Bool, ◌&&◌, ◌||◌, Option, none, some, List, ◌==◌, if◌then◌else◌,
  nat_eq, leb,
}
use secure_claw.Base.Json.{Json, Fields, null, bool, num, str, arr, obj, end, field}
use secure_claw.Sanitizer.Service.{Outcome, returns, throws}
use secure_claw.Vault.{SecretRef, Vault, get_ref}

-- `formatVaultRef`
abbrev pub vault_ref : String → String
vault_ref ref_id = "__VAULT_REF:" <> (ref_id <> "__")

-- VAULT_REF_PATTERN: the prefix, 36 characters of a-f, 0-9 and the dash, and the suffix
strip_prefix : String → String → Option String
strip_prefix String.[] s = some s
strip_prefix (String.◌∷◌ p ps) String.[] = none
strip_prefix (String.◌∷◌ p ps) (String.◌∷◌ c s) =
    let rest = strip_prefix ps s in if nat_eq (code p) (code c) then rest else none

abbrev is_id_char : ℕ → Bool
is_id_char c = (leb 97 c && leb c 102) || (leb 48 c && leb c 57) || nat_eq c 45

id_chars : ℕ → String → Option String
id_chars zero s = if s == "__" then some "" else none
id_chars (suc n) String.[] = none
id_chars (suc n) (String.◌∷◌ c s) = elim (id_chars n s) [
  | none ↦ none
  | some id ↦ if is_id_char (code c) then some (String.◌∷◌ c id) else none
]

unfoldable pub parse_vault_ref : String → Option String
unfolding strip_prefix id_chars
parse_vault_ref value = elim (strip_prefix "__VAULT_REF:" value) [
  | none ↦ none
  | some rest ↦ id_chars 36 rest
]

module _ (keychain : String → Option String) (refs : List SecretRef) where
  abbrev pub secret_of : String → String → SecretRef → Option String → Outcome Json
  secret_of key id r none =
      throws ("Secret not found for ref '" <> (id <> ("' (key: '" <> (key <> "')"))))
  secret_of key id r (some secret) = returns (str secret)

  abbrev pub resolve_ref : String → String → Option SecretRef → Outcome Json
  resolve_ref key id none =
      throws ("Unknown vault ref in tool input key '" <> (key <> ("': " <> id)))
  resolve_ref key id (some r) = secret_of key id r (keychain r.account)

  -- the branch of a text, from what `parseVaultRef` makes of it
  abbrev pub inject_text : String → String → Option String → Outcome Json
  inject_text key s none = returns (str s)
  inject_text key s (some id) = resolve_ref key id (get_ref id refs)

  abbrev pub as_object : Outcome Fields → Outcome Json
  as_object (throws message) = throws message
  as_object (returns fields) = returns (obj fields)

  -- one entry, then the others: the first exception ends the loop
  abbrev pub with_entry : String → Outcome Json → Outcome Fields → Outcome Fields
  with_entry key (throws message) rest = throws message
  with_entry key (returns v) (throws message) = throws message
  with_entry key (returns v) (returns fields) = returns (field key v fields)

  unfoldable mutual
    pub inject_value : String → Json → Outcome Json
    inject_value key (str s) = inject_text key s (parse_vault_ref s)
    inject_value key (obj fields) = as_object (inject_object fields)
    inject_value key (arr items) = returns (arr items)
    inject_value key (num n) = returns (num n)
    inject_value key (bool b) = returns (bool b)
    inject_value key null = returns null

    pub inject_object : Fields → Outcome Fields
    inject_object end = returns end
    inject_object (field key v fields) = with_entry key (inject_value key v) (inject_object fields)

-- `injectCredential`, on the fields of the input and before they are printed. The keychain is that of
-- the service of the reference that the request names.
abbrev pub inject_for : Vault → String → Fields → Option SecretRef → Outcome Fields
inject_for v ref_id fields none = throws ("Unknown credential reference: " <> ref_id)
inject_for v ref_id fields (some r) = inject_object (v.keychain r.service) v.refs fields

unfoldable pub inject_credential : Vault → String → Fields → Outcome Fields
unfolding inject_object
inject_credential v ref_id fields = inject_for v ref_id fields (get_ref ref_id v.refs)
