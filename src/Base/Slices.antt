-- ===== src/Base/Slices.antt =====
-- The first elements of a list, the rest, and the number of elements that pass a test.
use Prim.Native.Nat.{ℕ, zero, suc, ◌+◌, ◌≤◌}
use mathlib.Core.Path.{◌≡◌, refl}
use mathlib.Core.Logic.{◌⊎◌, inl, inr}
use mathlib.Core.Bool.{Bool, true, not}
use mathlib.Core.List.{List, [], ◌∷◌}
use native.Mathlib.Omega.{arith}
use secure_claw.Base.Lists.{length, keep, All}

module _ {ℓ} {A : Type ℓ} where
  abbrev pub take : ℕ → List A → List A
  take zero xs = []
  take (suc n) [] = []
  take (suc n) (x ∷ xs) = x ∷ take n xs

  abbrev pub drop : ℕ → List A → List A
  drop zero xs = xs
  drop (suc n) [] = []
  drop (suc n) (x ∷ xs) = drop n xs

  abbrev pub count : (A → Bool) → List A → ℕ
  count p xs = length (keep p xs)

  pub count-take :
      (p : A → Bool) (n : ℕ) (xs : List A) → count p (take n xs) + count p (drop n xs) ≡ count p xs
  count-take p zero xs = omega arith
  count-take p (suc n) [] = omega arith
  count-take p (suc n) (x ∷ xs) = ground (arith, count-take p n xs)

  pub length-take_le : (n : ℕ) (xs : List A) → length (take n xs) ≤ n
  length-take_le zero xs = omega arith
  length-take_le (suc n) [] = omega arith
  length-take_le (suc n) (x ∷ xs) = omega (arith, length-take_le n xs)

  -- What is left out is left out for the limit.
  pub full_or_all : (n : ℕ) (xs : List A) → (length (take n xs) ≡ n) ⊎ (drop n xs ≡ [])
  full_or_all zero xs = inl refl
  full_or_all (suc n) [] = inr refl
  full_or_all (suc n) (x ∷ xs) = ground (arith, full_or_all n xs)

  pub keep_passes : (p : A → Bool) (xs : List A) → count (λ x. not (p x)) (keep p xs) ≡ 0
  keep_passes p [] = refl
  keep_passes p (x ∷ xs) = ground (arith, keep_passes p xs)

  pub All-of_count :
      (p : A → Bool) (xs : List A) → count (λ x. not (p x)) xs ≡ 0 → All (λ x. p x ≡ true) xs
  All-of_count p [] h = tt
  All-of_count p (x ∷ xs) h = (ground arith, All-of_count p xs (ground arith))

module _ {ℓ κ} {A : Type ℓ} (P : A → Type κ) where
  pub All-take : (n : ℕ) (xs : List A) → All P xs → All P (take n xs)
  All-take zero xs h = tt
  All-take (suc n) [] h = tt
  All-take (suc n) (x ∷ xs) h = (h.0, All-take n xs h.1)

  pub All-drop : (n : ℕ) (xs : List A) → All P xs → All P (drop n xs)
  All-drop zero xs h = h
  All-drop (suc n) [] h = tt
  All-drop (suc n) (x ∷ xs) h = All-drop n xs h.1

  pub All-keep : (p : A → Bool) (xs : List A) → All P xs → All P (keep p xs)
  All-keep p [] h = tt
  All-keep p (x ∷ xs) h = ground (arith, All-keep p xs h.1)
