-- ===== src/Float/Order.antt =====
-- Order lemmas, and the first maximum of a list by a float key: `max(xs, key=...)`.
use stupid_inference_router.Prelude.{
  true, false, ◌≡◌, refl, inl, inr, List, [], ◌∷◌, arith, if◌then◌else◌, In, In-chosen, Bool-cases,
}
use stupid_inference_router.Float.Base.{Float, Laws, le, max, min}

-- The first element with the greatest key: a later one takes its place only if it is greater.
unfoldable pub max_by : {F A : Type 0} ⦃fl : Float F⦄ → (A → F) → A → List A → A
max_by key best [] = best
max_by key best (x ∷ xs) = max_by key (if le (key x) (key best) then best else x) xs

module _ {F : Type 0} ⦃fl : Float F⦄ (l : Laws fl) where
  pub le_refl : (a : F) → le a a ≡ true
  le_refl a = ground (arith, l.total a a)

  pub le_of_not_le : (a b : F) → le a b ≡ false → le b a ≡ true
  le_of_not_le a b h = ground (arith, l.total a b)

  pub le-max_left : (a b : F) → le a (max a b) ≡ true
  le-max_left a b = ground (arith, le_refl a, l.total a b)

  pub le-max_right : (a b : F) → le b (max a b) ≡ true
  le-max_right a b = ground (arith, le_refl b)

  pub min-le_left : (a b : F) → le (min a b) a ≡ true
  min-le_left a b = ground (arith, le_refl a, l.total a b)

  pub min-le_right : (a b : F) → le (min a b) b ≡ true
  min-le_right a b = ground (arith, le_refl b)

  pub max-le : (a b c : F) → le a c ≡ true → le b c ≡ true → le (max a b) c ≡ true
  max-le a b c p q = ground arith

  pub le-min : (a b c : F) → le c a ≡ true → le c b ≡ true → le c (min a b) ≡ true
  le-min a b c p q = ground arith

  -- Both operations keep the order.
  pub max_mono : (a b c d : F) → le a b ≡ true → le c d ≡ true → le (max a c) (max b d) ≡ true
  max_mono a b c d p q =
      max-le a c (max b d) (l.trans a b (max b d) p (le-max_left b d))
        (l.trans c d (max b d) q (le-max_right b d))

  pub min_mono : (a b c d : F) → le a b ≡ true → le c d ≡ true → le (min a c) (min b d) ≡ true
  min_mono a b c d p q =
      le-min b d (min a c) (l.trans (min a c) a b (min-le_left a c) p)
        (l.trans (min a c) c d (min-le_right a c) q)

  module _ {A : Type 0} (key : A → F) where
    max_by-ge_best : (best : A) (xs : List A) → le (key best) (key (max_by key best xs)) ≡ true
    unfolding max_by
    max_by-ge_best best [] = le_refl (key best)
    max_by-ge_best best (x ∷ xs) = elim (Bool-cases (le (key x) (key best))) [
      | inl e ↦ rw e (max_by-ge_best best xs)
      | inr e ↦ rw e (
          l.trans (key best) (key x) (key (max_by key x xs)) (le_of_not_le (key x) (key best) e)
            (max_by-ge_best x xs))
    ]

    -- No element has a greater key than the chosen one.
    pub max_by-ge :
        (best : A) (xs : List A) (y : A)
        → In y (best ∷ xs)
        → le (key y) (key (max_by key best xs)) ≡ true
    unfolding max_by
    max_by-ge best xs y (inl e) = rw e (max_by-ge_best best xs)
    max_by-ge best [] y (inr h) = absurd h
    max_by-ge best (x ∷ xs) y (inr h) = elim (Bool-cases (le (key x) (key best))) [
      | inl e ↦ rw e (elim h [
        | inl p ↦
            l.trans (key y) (key best) (key (max_by key best xs)) (rw p e) (max_by-ge_best best xs)
        | inr q ↦ max_by-ge best xs y (inr q)
      ])
      | inr e ↦ rw e (max_by-ge x xs y h)
    ]

-- The chosen element is one of the list.
pub max_by-In :
    {F A : Type 0} ⦃fl : Float F⦄ (key : A → F) (best : A) (xs : List A)
    → In (max_by key best xs) (best ∷ xs)
unfolding max_by
max_by-In key best [] = inl refl
max_by-In key best (x ∷ xs) =
    In-chosen (le (key x) (key best)) best x _ xs
      (max_by-In key (if le (key x) (key best) then best else x) xs)
