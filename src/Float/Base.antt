-- ===== src/Float/Base.antt =====
-- The operations on floats that the source calls, and what it relies on.
use Prim.Native.Nat.{◌^◌}
use stupid_inference_router.Prelude.{
  ◌*◌, ◌<◌, ◌≤◌, ℕ, Bool, true, false, not, ◌&&◌, ◌≡◌, ◌⊎◌, if◌then◌else◌,
}

pub record Float (F : Type 0) : Type 0 where
  -- The literal m / 10 ^ d; an `int` that meets a float is `lit n 0`.
  pub lit : ℕ → ℕ → F
  pub neg_inf : F
  pub add : F → F → F
  pub sub : F → F → F
  pub mul : F → F → F
  pub div : F → F → F
  pub le : F → F → Bool

module _ {F : Type 0} ⦃fl : Float F⦄ where
  abbrev pub le : F → F → Bool
  le = fl.le

  abbrev pub lt : F → F → Bool
  lt a b = not (fl.le b a)

  abbrev pub add : F → F → F
  add = fl.add

  abbrev pub sub : F → F → F
  sub = fl.sub

  abbrev pub mul : F → F → F
  mul = fl.mul

  abbrev pub div : F → F → F
  div = fl.div

  abbrev pub lit : ℕ → ℕ → F
  lit = fl.lit

  abbrev pub of_int : ℕ → F
  of_int n = fl.lit n 0

  abbrev pub neg_inf : F
  neg_inf = fl.neg_inf

  -- `bool(a)`: only 0.0 is false.
  abbrev pub truthy : F → Bool
  truthy a = not (fl.le a (fl.lit 0 0) && fl.le (fl.lit 0 0) a)

  -- Python's `max(a, b)` and `min(a, b)`: the first argument on a tie.
  abbrev pub max : F → F → F
  max a b = if fl.le b a then a else b

  abbrev pub min : F → F → F
  min a b = if fl.le a b then a else b

-- What is relied on: a total order, and operations that keep it.
pub record Laws {F : Type 0} (fl : Float F) : Type 0 where
  pub total : (a b : F) → (fl.le a b ≡ true) ⊎ (fl.le b a ≡ true)
  pub trans : (a b c : F) → fl.le a b ≡ true → fl.le b c ≡ true → fl.le a c ≡ true
  pub add_mono :
      (a b c d : F) → fl.le a b ≡ true → fl.le c d ≡ true → fl.le (fl.add a c) (fl.add b d) ≡ true
  pub sub_mono :
      (a b c d : F) → fl.le a b ≡ true → fl.le d c ≡ true → fl.le (fl.sub a c) (fl.sub b d) ≡ true
  pub mul_mono :
      (a b c : F)
      → fl.le (fl.lit 0 0) c ≡ true
      → fl.le a b ≡ true
      → fl.le (fl.mul c a) (fl.mul c b) ≡ true
  pub div_mono :
      (a b c : F)
      → fl.le c (fl.lit 0 0) ≡ false
      → fl.le a b ≡ true
      → fl.le (fl.div a c) (fl.div b c) ≡ true
  pub mul_nonneg :
      (a b : F)
      → fl.le (fl.lit 0 0) a ≡ true
      → fl.le (fl.lit 0 0) b ≡ true
      → fl.le (fl.lit 0 0) (fl.mul a b) ≡ true
  pub div_le :
      (a c : F)
      → fl.le (fl.lit 0 0) a ≡ true
      → fl.le (fl.lit 1 0) c ≡ true
      → fl.le (fl.div a c) a ≡ true
  pub mul_comm : (a b : F) → fl.mul a b ≡ fl.mul b a
  pub lit_mono : (m d n e : ℕ) → m * 10 ^ e ≤ n * 10 ^ d → fl.le (fl.lit m d) (fl.lit n e) ≡ true
  pub lit_pos : (m : ℕ) → 0 < m → fl.le (fl.lit m 0) (fl.lit 0 0) ≡ false
  pub sub_zero : (a : F) → fl.sub a (fl.lit 0 0) ≡ a
