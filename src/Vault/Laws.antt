-- ===== src/Vault/Laws.antt =====
-- What the injection of credentials leaves and reads.
use secure_claw.Base.{
  String, ◌≡◌, refl, ap, Bool, false, ◌||◌, Option, none, some, List, arith, is_some, Option-cases,
  inl, inr,
}
use secure_claw.Base.Json.{Json, Fields, null, bool, num, str, arr, obj, end, field}
use secure_claw.Sanitizer.Service.{Outcome, returns, throws}
use secure_claw.Vault.{SecretRef, get_ref}
use secure_claw.Vault.Inject.{
  parse_vault_ref, resolve_ref, inject_text, as_object, with_entry, inject_value, inject_object,
  inject_credential,
}

unfoldable mutual
  -- the placeholders that a value holds outside its arrays
  pub has_ref : Json → Bool
  has_ref (str s) = is_some (parse_vault_ref s)
  has_ref (obj fields) = any_ref fields
  has_ref (arr items) = false
  has_ref (num n) = false
  has_ref (bool b) = false
  has_ref null = false

  pub any_ref : Fields → Bool
  any_ref end = false
  any_ref (field key v fields) = has_ref v || any_ref fields

module _ (keychain : String → Option String) (refs : List SecretRef)
    (clean : (account s : String) → keychain account ≡ some s → parse_vault_ref s ≡ none) where
  clean_secret :
      (key id : String) (o : Option SecretRef) (w : Json)
      → resolve_ref keychain refs key id o ≡ returns w
      → has_ref w ≡ false
  unfolding has_ref
  clean_secret key id none w h = absurd (ground arith)
  clean_secret key id (some r) w h = elim (Option-cases (keychain r.account)) [
    | inl missing ↦ absurd (ground arith)
    | inr (s, found) ↦
        let e : str s ≡ w = ground arith in
        let no_ref = clean r.account s found in rw (← e) (ground arith)
  ]

  clean_text :
      (key s : String) (o : Option String) (w : Json)
      → parse_vault_ref s ≡ o
      → inject_text keychain refs key s o ≡ returns w
      → has_ref w ≡ false
  unfolding has_ref
  clean_text key s none w e h = let same : str s ≡ w = ground arith in rw (← same) (ground arith)
  clean_text key s (some id) w e h = clean_secret key id (get_ref id refs) w h

  clean_obj :
      (o : Outcome Fields) (w : Json)
      → ((out : Fields) → o ≡ returns out → any_ref out ≡ false)
      → as_object keychain refs o ≡ returns w
      → has_ref w ≡ false
  unfolding has_ref
  clean_obj (throws message) w ih h = absurd (ground arith)
  clean_obj (returns out) w ih h =
      let same : obj out ≡ w = ground arith in rw (← same) (ih out refl)

  clean_entry :
      (key : String) (o : Outcome Json) (p : Outcome Fields) (out : Fields)
      → ((w : Json) → o ≡ returns w → has_ref w ≡ false)
      → ((rest : Fields) → p ≡ returns rest → any_ref rest ≡ false)
      → with_entry keychain refs key o p ≡ returns out
      → any_ref out ≡ false
  unfolding has_ref
  clean_entry key (throws message) p out e f h = absurd (ground arith)
  clean_entry key (returns w) (throws message) out e f h = absurd (ground arith)
  clean_entry key (returns w) (returns rest) out e f h =
      let same : field key w rest ≡ out = ground arith in
      let first = e w refl in let others = f rest refl in rw (← same) (ground arith)

  mutual
    unfolding has_ref inject_value

    clean_value :
        (key : String) (v w : Json)
        → inject_value keychain refs key v ≡ returns w
        → has_ref w ≡ false
    clean_value key (str s) w h = clean_text key s (parse_vault_ref s) w refl h
    clean_value key (obj fields) w h =
        clean_obj (inject_object keychain refs fields) w (λ out. clean_object fields out) h
    clean_value key (arr items) w h = let e : arr items ≡ w = ground arith in rw (← e) refl
    clean_value key (num n) w h = let e : num n ≡ w = ground arith in rw (← e) refl
    clean_value key (bool b) w h = let e : bool b ≡ w = ground arith in rw (← e) refl
    clean_value key null w h = let e : null ≡ w = ground arith in rw (← e) refl

    clean_object :
        (fields out : Fields)
        → inject_object keychain refs fields ≡ returns out
        → any_ref out ≡ false
    clean_object end out h = let e : end ≡ out = ground arith in rw (← e) refl
    clean_object (field key v fields) out h =
        clean_entry key (inject_value keychain refs key v) (inject_object keychain refs fields) out
          (λ w. clean_value key v w) (λ rest. clean_object fields rest) h

-- If no secret in the keychain is itself a placeholder, then an input into which credentials were
-- injected without an exception has no placeholder left at any depth of its objects. What is
-- inside an array is not looked at, and keeps its placeholders.
pub injection_leaves_no_placeholder :
    (keychain : String → Option String) (refs : List SecretRef) (fields out : Fields)
    → ((account s : String) → keychain account ≡ some s → parse_vault_ref s ≡ none)
    → inject_object keychain refs fields ≡ returns out
    → any_ref out ≡ false
injection_leaves_no_placeholder keychain refs fields out clean h =
    clean_object keychain refs clean fields out h

-- An injection reads the keychain of one service, that of the reference that the request names:
-- two keychains that agree on it give the same result, whatever services the other placeholders
-- of the input are of.
pub injection_reads_one_service :
    (refs : List SecretRef) (r : SecretRef) (ref_id : String) (fields : Fields)
    (keychain other : String → String → Option String)
    → get_ref ref_id refs ≡ some r
    → keychain r.service ≡ other r.service
    → inject_credential (record { refs = refs; keychain = keychain }) ref_id fields
      ≡ inject_credential (record { refs = refs; keychain = other }) ref_id fields
unfolding inject_credential
injection_reads_one_service refs r ref_id fields keychain other found same =
    rw found (ap (λ k. inject_object k refs fields) same)
