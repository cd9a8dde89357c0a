-- ===== src/Vault/Stored.antt =====
-- What an injection puts in the place of a stored secret's placeholder.
use secure_claw.Base.{
  String, ◌≡◌, refl, ap, Bool, true, false, ◌||◌, Option, none, some, List, arith, is_some, inl,
  inr, Bool-cases, not, ◌&&◌, ◌==◌, if◌then◌else◌, eq_iff, ◌∙◌,
}
use secure_claw.Base.Json.{Json, Fields, null, bool, num, str, arr, obj, end, field}
use secure_claw.Sanitizer.Service.{Outcome, returns, throws}
use secure_claw.Vault.{
  SecretRef, Vault, get_ref, upsert_ref, with_secret, after_upsert, store, set_secret,
}
use secure_claw.Vault.Inject.{
  vault_ref, parse_vault_ref, resolve_ref, inject_text, as_object, with_entry, inject_value,
  inject_object, inject_for, inject_credential,
}
use secure_claw.Vault.Refs.{Unique, Resolves, upsert_ref-Resolves}

unfoldable mutual
  -- Every text outside the arrays is the placeholder of an id, or no placeholder.
  pub only_asks : String → Json → Bool
  only_asks id (str s) = (s == vault_ref id) || not (is_some (parse_vault_ref s))
  only_asks id (obj fields) = all_ask id fields
  only_asks id (arr items) = true
  only_asks id (num n) = true
  only_asks id (bool b) = true
  only_asks id null = true

  pub all_ask : String → Fields → Bool
  all_ask id end = true
  all_ask id (field key v fields) = only_asks id v && all_ask id fields

unfoldable mutual
  -- the value with a secret in the place of every placeholder of an id, at any depth of its objects
  pub filled : String → String → Json → Json
  filled id secret (str s) = if s == vault_ref id then str secret else str s
  filled id secret (obj fields) = obj (all_filled id secret fields)
  filled id secret (arr items) = arr items
  filled id secret (num n) = num n
  filled id secret (bool b) = bool b
  filled id secret null = null

  pub all_filled : String → String → Fields → Fields
  all_filled id secret end = end
  all_filled id secret (field key v fields) =
      field key (filled id secret v) (all_filled id secret fields)

module _ (keychain : String → Option String) (refs : List SecretRef) (id secret : String)
    (parsed : parse_vault_ref (vault_ref id) ≡ some id)
    (resolves : (key : String)
      → resolve_ref keychain refs key id (get_ref id refs) ≡ returns (str secret)) where
  other_text :
      (key s : String) (o : Option String)
      → is_some o ≡ false
      → inject_text keychain refs key s o ≡ returns (str s)
  other_text key s none h = refl
  other_text key s (some other) h = absurd (ground arith)

  asked_text :
      (key s : String)
      → only_asks id (str s) ≡ true
      → inject_text keychain refs key s (parse_vault_ref s) ≡ returns (filled id secret (str s))
  unfolding only_asks filled
  asked_text key s h = elim (Bool-cases (s == vault_ref id)) [
    | inl same ↦
        let own : s ≡ vault_ref id = ground (arith, same, eq_iff s (vault_ref id)) in
        rw same
          (ap (inject_text keychain refs key s) (ap parse_vault_ref own ∙ parsed) ∙ resolves key)
    | inr differs ↦ rw differs (other_text key s (parse_vault_ref s) (not_true _ (rw differs at h)))
  ]
    where
      not_true : (b : Bool) → not b ≡ true → b ≡ false
      not_true b k = ground arith

  mutual
    unfolding only_asks filled inject_value

    value_is_filled :
        (key : String) (v : Json)
        → only_asks id v ≡ true
        → inject_value keychain refs key v ≡ returns (filled id secret v)
    value_is_filled key (str s) h = asked_text key s h
    value_is_filled key (obj fields) h = ap (as_object keychain refs) (fields_are_filled fields h)
    value_is_filled key (arr items) h = refl
    value_is_filled key (num n) h = refl
    value_is_filled key (bool b) h = refl
    value_is_filled key null h = refl

    fields_are_filled :
        (fields : Fields)
        → all_ask id fields ≡ true
        → inject_object keychain refs fields ≡ returns (all_filled id secret fields)
    fields_are_filled end h = refl
    fields_are_filled (field key v fields) h =
        ap (λ o. with_entry keychain refs key o (inject_object keychain refs fields))
          (value_is_filled key v (ground arith))
        ∙ ap (with_entry keychain refs key (returns (filled id secret v)))
            (fields_are_filled fields (ground arith))

injected :
    (keychain : String → String → Option String) (x : List SecretRef × String)
    (service account value : String) (fields : Fields)
    → Resolves service account x
    → parse_vault_ref (vault_ref x.1) ≡ some x.1
    → all_ask x.1 fields ≡ true
    → inject_credential
        (record { refs = x.0; keychain = with_secret service account (some value) keychain })
        x.1
        fields
      ≡ returns (all_filled x.1 value fields)
unfolding inject_credential
injected keychain x service account value fields (r, found, own, u) parsed asked =
    ap
      (inject_for
        (record { refs = x.0; keychain = with_secret service account (some value) keychain }) x.1
        fields)
      found
    ∙ fields_are_filled (with_secret service account (some value) keychain r.service) x.0 x.1 value
        parsed (λ key. rw found (rw own refl)) fields asked

stored_secret_injects :
    (keychain : String → String → Option String) (refs : List SecretRef)
    (o : Outcome (List SecretRef × String)) (service account value : String) (fields : Fields)
    → ((x : List SecretRef × String) → o ≡ returns x → Resolves service account x)
    → let done = after_upsert (with_secret service account (some value) keychain) refs o in
      done.1.success ≡ true
      → parse_vault_ref (vault_ref done.1.ref_id) ≡ some done.1.ref_id
      → all_ask done.1.ref_id fields ≡ true
      → inject_credential done.0 done.1.ref_id fields
        ≡ returns (all_filled done.1.ref_id value fields)
unfolding after_upsert
stored_secret_injects keychain refs (throws message) service account value fields h done =
    absurd (ground arith)
stored_secret_injects keychain refs (returns x) service account value fields h done =
    injected keychain x service account value fields (h x refl)

store_injects :
    (o : Outcome (Unit {0})) (v : Vault) (service account value uuid now : String) (fields : Fields)
    → Unique v.refs
    → let done = store o service account value uuid now v in
      done.1.success ≡ true
      → parse_vault_ref (vault_ref done.1.ref_id) ≡ some done.1.ref_id
      → all_ask done.1.ref_id fields ≡ true
      → inject_credential done.0 done.1.ref_id fields
        ≡ returns (all_filled done.1.ref_id value fields)
store_injects (throws message) v service account value uuid now fields u done =
    absurd (ground arith)
store_injects (returns _) v service account value uuid now fields u done =
    stored_secret_injects v.keychain v.refs (upsert_ref service account uuid now v.refs) service
      account value fields (λ x. upsert_ref-Resolves service account uuid now v.refs x u) done

-- A secret that was stored with success is what an injection puts in the place of its placeholder:
-- on a vault of which no two rows have one id, if the id that `setSecret` returned has the form
-- that the placeholder pattern asks for, then an injection for that id into an input in which,
-- outside the arrays, every text is the id's placeholder or no placeholder at all, succeeds and
-- gives the input with the stored value in the place of the placeholder at every depth of its
-- objects, all else being left as it is.
pub stored_secret_is_injected :
    (can_use : String → Outcome (Unit {0})) (v : Vault) (service account value uuid now : String)
    (fields : Fields)
    → Unique v.refs
    → let done = set_secret can_use service account value uuid now v in
      done.1.success ≡ true
      → parse_vault_ref (vault_ref done.1.ref_id) ≡ some done.1.ref_id
      → all_ask done.1.ref_id fields ≡ true
      → inject_credential done.0 done.1.ref_id fields
        ≡ returns (all_filled done.1.ref_id value fields)
unfolding set_secret
stored_secret_is_injected can_use v service account value uuid now fields =
    store_injects (can_use service) v service account value uuid now fields
