-- ===== src/Prelude/Lists.antt =====
-- Lists over the native numbers, with predicates by recursion that the tactics read.
use Prim.Native.Nat.{ℕ, zero, suc, ◌≤◌}
use mathlib.Core.Path.{◌≡◌, refl}
use mathlib.Core.Logic.{◌⊎◌, inl, inr}
use mathlib.Core.Bool.{Bool, true, false}
use mathlib.Core.List.{List, [], ◌∷◌, ◌++◌}
use mathlib.Core.Option.{Option, none, some}
use native.Mathlib.Omega.{arith}
use stupid_inference_router.Prelude.Tests.{if◌then◌else◌}

module _ {ℓ} {A : Type ℓ} where
  abbrev pub length : List A → ℕ
  length [] = 0
  length (x ∷ xs) = suc (length xs)

  -- `[x for x in xs if keep(x)]`.
  unfoldable pub filter : (A → Bool) → List A → List A
  filter keep [] = []
  filter keep (x ∷ xs) = elim (keep x) [ true ↦ x ∷ filter keep xs | false ↦ filter keep xs ]

  -- Every element satisfies `P`.
  abbrev pub All {κ} : (A → Type κ) → List A → Type κ
  All P [] = Unit
  All P (x ∷ xs) = P x × All P xs

-- `x` stands in the list.
abbrev pub In : {A : Type 0} → A → List A → Type 0
In x [] = ⊥
In x (y ∷ ys) = (x ≡ y) ⊎ In x ys

-- One of the first two was chosen, and the chosen one or a later one is meant.
pub In-chosen :
    {A : Type 0} (b : Bool) (best x r : A) (xs : List A)
    → In r ((if b then best else x) ∷ xs)
    → In r (best ∷ x ∷ xs)
In-chosen true best x r xs (inl p) = inl p
In-chosen false best x r xs (inl p) = inr (inl p)
In-chosen b best x r xs (inr h) = inr (inr h)

module _ {A : Type 0} (keep : A → Bool) where
  -- A filtered list holds the elements that pass, and no other.
  pub In-filter : (x : A) (xs : List A) → In x (filter keep xs) → In x xs × (keep x ≡ true)
  unfolding filter
  In-filter x [] h = absurd h
  In-filter x (y ∷ ys) h = ground (arith, In-filter x ys)

  pub filter-In : (x : A) (xs : List A) → In x xs → keep x ≡ true → In x (filter keep xs)
  unfolding filter
  filter-In x [] h k = absurd h
  filter-In x (y ∷ ys) h k = ground (arith, filter-In x ys)

  pub filter-nil : (x : A) (xs : List A) → In x xs → filter keep xs ≡ [] → keep x ≡ false
  unfolding filter
  filter-nil x [] h e = absurd h
  filter-nil x (y ∷ ys) h e = ground (arith, filter-nil x ys)

  pub filter-keep :
      (x : A) (xs : List A) → keep x ≡ true → filter keep (x ∷ xs) ≡ x ∷ filter keep xs
  unfolding filter
  filter-keep x xs e = ground arith

  pub filter-skip : (x : A) (xs : List A) → keep x ≡ false → filter keep (x ∷ xs) ≡ filter keep xs
  unfolding filter
  filter-skip x xs e = ground arith

  pub filter-append : (xs ys : List A) → filter keep (xs ++ ys) ≡ filter keep xs ++ filter keep ys
  unfolding filter
  filter-append [] ys = refl
  filter-append (x ∷ xs) ys = ground (arith, filter-append xs ys)

  pub length-filter-le : (xs : List A) → length (filter keep xs) ≤ length xs
  unfolding filter
  length-filter-le [] = omega arith
  length-filter-le (x ∷ xs) = ground (arith, length-filter-le xs)

module _ {ℓ} {A : Type ℓ} where
  abbrev pub take : ℕ → List A → List A
  take zero xs = []
  take (suc n) [] = []
  take (suc n) (x ∷ xs) = x ∷ take n xs

  abbrev pub drop : ℕ → List A → List A
  drop zero xs = xs
  drop (suc n) [] = []
  drop (suc n) (x ∷ xs) = drop n xs

  abbrev pub first : List A → Option A
  first [] = none
  first (x ∷ xs) = some x

  -- A batch of one more is the first element and the batch of what is left.
  pub take-first :
      (n : ℕ) (xs : List A) (x : A) → some x ≡ first xs → take (suc n) xs ≡ x ∷ take n (drop 1 xs)
  take-first n [] x e = cc
  take-first n (y ∷ xs) x e = ground arith

  pub take-none : (n : ℕ) (xs : List A) → none ≡ first xs → take n xs ≡ []
  take-none zero xs e = refl
  take-none (suc n) [] e = refl
  take-none (suc n) (x ∷ xs) e = cc

  pub drop-none : (n : ℕ) (xs : List A) → none ≡ first xs → drop n xs ≡ xs
  drop-none zero xs e = refl
  drop-none (suc n) [] e = refl
  drop-none (suc n) (x ∷ xs) e = cc

  pub drop-drop : (n : ℕ) (xs : List A) → drop n (drop 1 xs) ≡ drop (suc n) xs
  drop-drop zero [] = refl
  drop-drop (suc n) [] = refl
  drop-drop zero (x ∷ xs) = refl
  drop-drop (suc n) (x ∷ xs) = refl

  pub length-take :
      (n : ℕ) (xs : List A) → (length (take n xs) ≤ n) × (length (take n xs) ≤ length xs)
  length-take zero xs = omega arith
  length-take (suc n) [] = omega arith
  length-take (suc n) (x ∷ xs) = omega (arith, length-take n xs)
