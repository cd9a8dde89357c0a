-- ===== src/Vault/Refs.antt =====
-- The rows of the reference store: an id names one row, and an upsert returns the id of its own.
use secure_claw.Base.{
  String, ◌≡◌, refl, Option, Bool, true, false, some, List, [], ◌∷◌, ◌++◌, arith, ◌==◌, any,
  any-append, keep, not, if_cases, eq_iff, eq_refl, Bool-cases, Option-cases, inl, inr,
}
use secure_claw.Sanitizer.Service.{Outcome, returns, throws}
use secure_claw.Vault.{
  SecretRef, Vault, is_of, find_row, get_ref, find_ref, insert_ref, upsert_ref, delete_ref,
  after_upsert, store, set_secret, remove, delete_secret,
}

abbrev has_id : String → List SecretRef → Bool
has_id id refs = any (λ r. r.ref_id == id) refs

-- no two rows have one id
abbrev pub Unique : List SecretRef → Type 0
Unique [] = Unit
Unique (r ∷ rs) = (has_id r.ref_id rs ≡ false) × Unique rs

found_has_id :
    (p : SecretRef → Bool) (refs : List SecretRef) (r : SecretRef)
    → find_row p refs ≡ some r
    → has_id r.ref_id refs ≡ true
unfolding find_row
found_has_id p [] r h = absurd (ground arith)
found_has_id p (q ∷ refs) r h = elim (Bool-cases (p q)) [
  | inl here ↦ ground (arith, eq_refl r.ref_id)
  | inr there ↦ ground (arith, found_has_id p refs r)
]

found_passes :
    (p : SecretRef → Bool) (refs : List SecretRef) (r : SecretRef)
    → find_row p refs ≡ some r
    → p r ≡ true
unfolding find_row
found_passes p [] r h = absurd (ground arith)
found_passes p (q ∷ refs) r h = elim (Bool-cases (p q)) [
  | inl here ↦ let same : q ≡ r = ground arith in cc (here, same)
  | inr there ↦ found_passes p refs r (ground arith)
]

get_ref-found :
    (p : SecretRef → Bool) (refs : List SecretRef) (r : SecretRef)
    → Unique refs
    → find_row p refs ≡ some r
    → get_ref r.ref_id refs ≡ some r
unfolding find_row get_ref
get_ref-found p [] r u h = absurd (ground arith)
get_ref-found p (q ∷ refs) r u h = elim (Bool-cases (p q)) [
  | inl here ↦ ground (arith, eq_refl r.ref_id)
  | inr there ↦
      let listed = found_has_id p refs r (ground arith) in
      let rest = get_ref-found p refs r u.1 (ground arith) in
      ground (arith, eq_iff q.ref_id r.ref_id)
]

get_ref-new :
    (refs : List SecretRef) (row : SecretRef)
    → has_id row.ref_id refs ≡ false
    → get_ref row.ref_id (refs ++ row ∷ []) ≡ some row
unfolding get_ref find_row
get_ref-new [] row h = ground (arith, eq_refl row.ref_id)
get_ref-new (q ∷ refs) row h = ground (arith, get_ref-new refs row)

Unique-append :
    (refs : List SecretRef) (row : SecretRef)
    → Unique refs
    → has_id row.ref_id refs ≡ false
    → Unique (refs ++ row ∷ [])
Unique-append [] row u h = (refl, tt)
Unique-append (q ∷ refs) row u h = (
  ground (
    arith,
    any-append (λ r. r.ref_id == q.ref_id) refs (row ∷ []),
    eq_iff row.ref_id q.ref_id,
    eq_iff q.ref_id row.ref_id,
  ),
  Unique-append refs row u.1 (ground arith),
)

-- the row of an id after an upsert, which is the service's and the account's own
abbrev pub Resolves : String → String → List SecretRef × String → Type 0
Resolves service account x =
    (r : SecretRef) × (get_ref x.1 x.0 ≡ some r) × (is_of service account r ≡ true) × Unique x.0

pub upsert_ref-Resolves :
    (service account uuid now : String) (refs : List SecretRef) (x : List SecretRef × String)
    → Unique refs
    → upsert_ref service account uuid now refs ≡ returns x
    → Resolves service account x
unfolding upsert_ref insert_ref find_ref
upsert_ref-Resolves service account uuid now refs x u h =
    elim (Option-cases (find_row (is_of service account) refs)) [
      | inr (existing, found) ↦
          let e : ◌≡◌ {A = List SecretRef × String} (refs, existing.ref_id) x = ground arith in
          rw (← e) (
            existing,
            get_ref-found (is_of service account) refs existing u found,
            found_passes (is_of service account) refs existing found,
            u,
          )
      | inl missing ↦ elim (Bool-cases (has_id uuid refs)) [
        | inl taken ↦ absurd (ground arith)
        | inr free ↦
            let row : SecretRef = record {
              ref_id = uuid;
              service = service;
              account = account;
              created_at = now;
            } in
            let e : ◌≡◌ {A = List SecretRef × String} (refs ++ row ∷ [], uuid) x = ground arith in
            rw (← e) (
              row,
              get_ref-new refs row free,
              ground (arith, eq_refl service, eq_refl account),
              Unique-append refs row u free,
            )
      ]
    ]

has_id-keep :
    (p : SecretRef → Bool) (id : String) (refs : List SecretRef)
    → has_id id refs ≡ false
    → has_id id (keep p refs) ≡ false
has_id-keep p id [] h = refl
has_id-keep p id (r ∷ refs) h = ground (arith, has_id-keep p id refs)

Unique-keep : (p : SecretRef → Bool) (refs : List SecretRef) → Unique refs → Unique (keep p refs)
Unique-keep p [] u = tt
Unique-keep p (r ∷ refs) u =
    let rest = Unique-keep p refs u.1 in
    if_cases Unique (p r) (λ kept. (has_id-keep p r.ref_id refs u.0, rest)) (λ dropped. rest)

after_upsert-Unique :
    (keychain : String → String → Option String) (refs : List SecretRef)
    (o : Outcome (List SecretRef × String))
    → Unique refs
    → ((x : List SecretRef × String) → o ≡ returns x → Unique x.0)
    → Unique (after_upsert keychain refs o).0.refs
unfolding after_upsert
after_upsert-Unique keychain refs (throws message) u h = u
after_upsert-Unique keychain refs (returns x) u h = h x refl

store-Unique :
    (o : Outcome (Unit {0})) (service account value uuid now : String) (v : Vault)
    → Unique v.refs
    → Unique (store o service account value uuid now v).0.refs
store-Unique (throws message) service account value uuid now v u = u
store-Unique (returns _) service account value uuid now v u =
    after_upsert-Unique _ v.refs (upsert_ref service account uuid now v.refs) u
      (λ x h. (upsert_ref-Resolves service account uuid now v.refs x u h).3)

-- what can happen to a vault
pub data Step (can_use : String → Outcome (Unit {0})) (v : Vault) : Vault → Type 0 where
  stores :
      (service account value uuid now : String)
      → Step can_use v (set_secret can_use service account value uuid now v).0
  deletes :
      (service account : String) {w : Vault}
      → delete_secret can_use service account v ≡ returns w
      → Step can_use v w

pub data Reach (can_use : String → Outcome (Unit {0})) : Vault → Type 0 where
  start :
      (keychain : String → String → Option String)
      → Reach can_use (record { refs = []; keychain = keychain })
  next : {v w : Vault} → Reach can_use v → Step can_use v w → Reach can_use w

remove-Unique :
    (o : Outcome (Unit {0})) (service account : String) (v w : Vault)
    → remove o service account v ≡ returns w
    → Unique v.refs
    → Unique w.refs
unfolding delete_ref
remove-Unique (throws message) service account v w h u = absurd (ground arith)
remove-Unique (returns _) service account v w h u =
    let kept = Unique-keep (λ r. not (is_of service account r)) v.refs u in
    let same : keep (λ r. not (is_of service account r)) v.refs ≡ w.refs = ground arith in
    rw (← same) kept

-- In every vault that storing and deleting lead to from an empty reference store, whatever random
-- ids are drawn and whenever the keychain fails, no two rows have one id.
pub Reach-Unique :
    {can_use : String → Outcome (Unit {0})} {v : Vault} → Reach can_use v → Unique v.refs
unfolding set_secret delete_secret
Reach-Unique (start keychain) = tt
Reach-Unique {can_use} (next {v} r (stores service account value uuid now)) =
    store-Unique (can_use service) service account value uuid now v (Reach-Unique r)
Reach-Unique {can_use} (next {v} {w} r (deletes service account h)) =
    remove-Unique (can_use service) service account v w h (Reach-Unique r)
