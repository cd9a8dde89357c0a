-- ===== src/Base/Dict.antt =====
-- JavaScript's `Map` with text keys, in insertion order. `set` on a key that is there keeps its
-- place; `delete` drops the key.
use Prim.Native.String.{String}
use mathlib.Core.Path.{◌≡◌, refl}
use mathlib.Core.Option.{Option, none, some}
use mathlib.Core.List.{List, [], ◌∷◌, map}
use native.Mathlib.Omega.{arith}
use text.Mathlib.TextEquality.{eq_iff}
use text.Mathlib.TextPositions.{eq_refl}
use secure_claw.Base.Tests.{◌==◌, if◌then◌else◌}
use secure_claw.Base.Lists.{All}

abbrev pub Dict {ℓ} : Type ℓ → Type ℓ
Dict V = List (String × V)

module _ {ℓ} {V : Type ℓ} where
  -- `m.get(k)`
  unfoldable pub get : Dict V → String → Option V
  get [] k = none
  get ((j, v) ∷ m) k = if j == k then some v else get m k

  -- `m.set(k, v)`
  unfoldable pub set : Dict V → String → V → Dict V
  set [] k v = (k, v) ∷ []
  set ((j, w) ∷ m) k v = if j == k then (k, v) ∷ m else (j, w) ∷ set m k v

  -- `m.delete(k)`
  unfoldable pub delete : Dict V → String → Dict V
  delete [] k = []
  delete ((j, w) ∷ m) k = let rest = delete m k in if j == k then rest else (j, w) ∷ rest

  -- `[...m.values()]`
  unfoldable pub values : Dict V → List V
  values = map (λ e. e.1)

  -- `[...m.keys()]`
  unfoldable pub keys : Dict V → List String
  keys = map (λ e. e.0)

  pub get-set :
      (m : Dict V) (k j : String) (v : V) → get (set m k v) j ≡ (if k == j then some v else get m j)
  unfolding get set
  get-set [] k j v = refl
  get-set ((i, w) ∷ m) k j v = ground (arith, get-set m k j v, eq_iff i k, eq_iff i j, eq_iff k j)

  pub get-delete :
      (m : Dict V) (k j : String) → get (delete m k) j ≡ (if k == j then none else get m j)
  unfolding get delete
  get-delete [] k j = ground arith
  get-delete ((i, w) ∷ m) k j = ground (arith, get-delete m k j, eq_iff i k, eq_iff i j, eq_iff k j)

module _ {ℓ κ} {V : Type ℓ} (P : V → Type κ) where
  -- every stored value satisfies `P`
  abbrev pub AllValues : Dict V → Type κ
  AllValues = All (λ e. P e.1)

  pub AllValues-set : (m : Dict V) (k : String) (v : V) → AllValues m → P v → AllValues (set m k v)
  unfolding set
  AllValues-set [] k v h p = (p, tt)
  AllValues-set ((j, w) ∷ m) k v h p = ground (arith, AllValues-set m k v h.1 p)

  pub AllValues-delete : (m : Dict V) (k : String) → AllValues m → AllValues (delete m k)
  unfolding delete
  AllValues-delete [] k h = h
  AllValues-delete ((j, w) ∷ m) k h = ground (arith, AllValues-delete m k h.1)

module _ {ℓ} {V : Type ℓ} where
  -- no key is there twice, as in every `Map`
  abbrev pub Distinct : Dict V → Type ℓ
  Distinct [] = Unit
  Distinct ((k, v) ∷ m) = (get m k ≡ none) × Distinct m

  pub set-Distinct : (m : Dict V) (k : String) (v : V) → Distinct m → Distinct (set m k v)
  unfolding get set
  set-Distinct [] k v h = (refl, tt)
  set-Distinct ((j, w) ∷ m) k v h =
      ground (arith, set-Distinct m k v h.1, get-set m k j v, eq_iff j k, eq_iff k j)

  pub delete-Distinct : (m : Dict V) (k : String) → Distinct m → Distinct (delete m k)
  unfolding get delete
  delete-Distinct [] k h = tt
  delete-Distinct ((j, w) ∷ m) k h =
      ground (arith, delete-Distinct m k h.1, get-delete m k j, eq_iff j k, eq_iff k j)

module _ {ℓ κ} {V : Type ℓ} (P : V → Type κ) where
  AllValues_of_cons :
      (j : String) (w : V) (m : Dict V)
      → get m j ≡ none
      → ((k : String) (v : V) → get ((j, w) ∷ m) k ≡ some v → P v)
      → (k : String) (v : V) → get m k ≡ some v
      → P v
  unfolding get
  AllValues_of_cons j w m fresh h k v e = h k v (ground (arith, eq_iff j k))

  -- a property of everything that can be looked up is one of every value
  pub AllValues-of_get :
      (m : Dict V) → Distinct m → ((k : String) (v : V) → get m k ≡ some v → P v) → AllValues P m
  unfolding get
  AllValues-of_get [] d h = tt
  AllValues-of_get ((j, w) ∷ m) d h =
      (h j w (simp eq_refl), AllValues-of_get m d.1 (AllValues_of_cons j w m d.0 h))

  pub get_of_AllValues :
      (m : Dict V) → AllValues P m → (k : String) (v : V) → get m k ≡ some v → P v
  unfolding get
  get_of_AllValues [] a k v e = cc
  get_of_AllValues ((j, w) ∷ m) a k v e = ground (arith, get_of_AllValues m a.1 k v)
