-- ===== src/Float/Fixed.antt =====
-- Signed thousandths: a type of floats that computes, for the witnesses. It shows that the laws
-- which the theorems assume of floats can hold together.
use Prim.Native.Nat.{◌^◌}
use native.Mathlib.Nat.{
  mul-le-mul_left, mul_comm, le-div_iff_mul-le, le_of_mul-le-mul_right, mul-le-mul_right,
  div-mul-le_self, pow-suc,
}
use stupid_inference_router.Prelude.{
  ℕ, zero, suc, ◌+◌, ◌*◌, ◌/◌, ◌≤◌, ◌<◌, true, false, ◌≡◌, refl, ◌⊎◌, arith,
}
use stupid_inference_router.Prelude.Int.{ℤ, pos, negsuc, pos_part, neg_part, neg, sub_ℕ, leb_ℤ}
use stupid_inference_router.Float.Base.{Float, Laws}

abbrev mul_ℤ : ℤ → ℤ → ℤ
mul_ℤ (pos m) (pos n) = pos (m * n / 1000)
mul_ℤ (pos m) (negsuc n) = neg (m * suc n / 1000)
mul_ℤ (negsuc m) (pos n) = neg (suc m * n / 1000)
mul_ℤ (negsuc m) (negsuc n) = pos (suc m * suc n / 1000)

abbrev div_ℤ : ℤ → ℤ → ℤ
div_ℤ (pos m) (pos n) = pos (m * 1000 / n)
div_ℤ (pos m) (negsuc n) = neg (m * 1000 / suc n)
div_ℤ (negsuc m) (pos n) = neg (suc m * 1000 / n)
div_ℤ (negsuc m) (negsuc n) = pos (suc m * 1000 / suc n)

instance abbrev pub fixed : Float ℤ
fixed = record {
  lit = λ m d. pos (m * 1000 / 10 ^ d);
  neg_inf = negsuc 1_000_000_000_000;
  add = λ a b. sub_ℕ (pos_part a + pos_part b) (neg_part a + neg_part b);
  sub = λ a b. sub_ℕ (pos_part a + neg_part b) (neg_part a + pos_part b);
  mul = mul_ℤ;
  div = div_ℤ;
  le = leb_ℤ;
}

total : (a b : ℤ) → (leb_ℤ a b ≡ true) ⊎ (leb_ℤ b a ≡ true)
total a b = ground arith

trans : (a b c : ℤ) → leb_ℤ a b ≡ true → leb_ℤ b c ≡ true → leb_ℤ a c ≡ true
trans a b c p q = ground arith

sub_ℕ_mono : (a b c d : ℕ) → a + d ≤ c + b → leb_ℤ (sub_ℕ a b) (sub_ℕ c d) ≡ true
sub_ℕ_mono a b c d h = ground arith

add_mono :
    (a b c d : ℤ)
    → leb_ℤ a b ≡ true
    → leb_ℤ c d ≡ true
    → leb_ℤ (fixed.add a c) (fixed.add b d) ≡ true
add_mono a b c d p q =
    sub_ℕ_mono (pos_part a + pos_part c) (neg_part a + neg_part c) (pos_part b + pos_part d)
      (neg_part b + neg_part d) (ground arith)

sub_mono :
    (a b c d : ℤ)
    → leb_ℤ a b ≡ true
    → leb_ℤ d c ≡ true
    → leb_ℤ (fixed.sub a c) (fixed.sub b d) ≡ true
sub_mono a b c d p q =
    sub_ℕ_mono (pos_part a + neg_part c) (neg_part a + pos_part c) (pos_part b + neg_part d)
      (neg_part b + pos_part d) (ground arith)

neg_mono : (m n : ℕ) → m ≤ n → leb_ℤ (neg n) (neg m) ≡ true
neg_mono zero zero h = refl
neg_mono zero (suc n) h = ground arith
neg_mono (suc m) zero h = absurd (omega arith)
neg_mono (suc m) (suc n) h = ground arith

neg_le_pos : (m n : ℕ) → leb_ℤ (neg m) (pos n) ≡ true
neg_le_pos zero n = ground arith
neg_le_pos (suc m) n = ground arith

div_le_div : (a b k : ℕ) → a ≤ b → a / k ≤ b / k
div_le_div a b k h = grind arith

mul_mono :
    (a b c : ℤ) → leb_ℤ (pos 0) c ≡ true → leb_ℤ a b ≡ true → leb_ℤ (mul_ℤ c a) (mul_ℤ c b) ≡ true
mul_mono a b (negsuc k) z h = ground arith
mul_mono (pos m) (pos n) (pos k) z h =
    ground (arith, div_le_div (k * m) (k * n) 1000 (mul-le-mul_left k (ground arith)))
mul_mono (pos m) (negsuc n) (pos k) z h = ground arith
mul_mono (negsuc m) (pos n) (pos k) z h = neg_le_pos (k * suc m / 1000) (k * n / 1000)
mul_mono (negsuc m) (negsuc n) (pos k) z h =
    neg_mono (k * suc n / 1000) (k * suc m / 1000)
      (div_le_div (k * suc n) (k * suc m) 1000 (mul-le-mul_left k (ground arith)))

div_mono :
    (a b c : ℤ) → leb_ℤ c (pos 0) ≡ false → leb_ℤ a b ≡ true → leb_ℤ (div_ℤ a c) (div_ℤ b c) ≡ true
div_mono a b (negsuc k) z h = ground arith
div_mono (pos m) (pos n) (pos k) z h =
    ground (arith, div_le_div (m * 1000) (n * 1000) k (ground arith))
div_mono (pos m) (negsuc n) (pos k) z h = ground arith
div_mono (negsuc m) (pos n) (pos k) z h = neg_le_pos (suc m * 1000 / k) (n * 1000 / k)
div_mono (negsuc m) (negsuc n) (pos k) z h =
    neg_mono (suc n * 1000 / k) (suc m * 1000 / k)
      (div_le_div (suc n * 1000) (suc m * 1000) k (ground arith))

mul_nonneg :
    (a b : ℤ) → leb_ℤ (pos 0) a ≡ true → leb_ℤ (pos 0) b ≡ true → leb_ℤ (pos 0) (mul_ℤ a b) ≡ true
mul_nonneg (pos m) (pos n) p q = ground arith
mul_nonneg (negsuc m) b p q = ground arith
mul_nonneg (pos m) (negsuc n) p q = ground arith

mul_ℤ_comm : (a b : ℤ) → mul_ℤ a b ≡ mul_ℤ b a
mul_ℤ_comm (pos m) (pos n) = rw (mul_comm m n)
mul_ℤ_comm (pos m) (negsuc n) = rw (mul_comm m (suc n))
mul_ℤ_comm (negsuc m) (pos n) = rw (mul_comm (suc m) n)
mul_ℤ_comm (negsuc m) (negsuc n) = rw (mul_comm (suc m) (suc n))

-- Quotients keep the order of the fractions.
fraction_mono : (x y p q : ℕ) → 0 < p → 0 < q → x * q ≤ y * p → x / p ≤ y / q
fraction_mono x y p q hp hq h =
    (le-div_iff_mul-le hq).1
      (le_of_mul-le-mul_right {k = p} (omega (arith, mul-le-mul_right q (div-mul-le_self x p))) hp)

ten_pos : (d : ℕ) → 0 < 10 ^ d
ten_pos zero = omega arith
ten_pos (suc d) = rw pow-suc (omega (arith, ten_pos d))

lit_mono : (m d n e : ℕ) → m * 10 ^ e ≤ n * 10 ^ d → leb_ℤ (fixed.lit m d) (fixed.lit n e) ≡ true
lit_mono m d n e h = ground (
  arith,
  fraction_mono (m * 1000) (n * 1000) (10 ^ d) (10 ^ e) (ten_pos d) (ten_pos e) (omega arith),
)

lit_pos : (m : ℕ) → 0 < m → leb_ℤ (fixed.lit m 0) (fixed.lit 0 0) ≡ false
lit_pos m h = ground arith

sub_zero : (a : ℤ) → fixed.sub a (fixed.lit 0 0) ≡ a
sub_zero (pos n) = ground arith
sub_zero (negsuc n) = ground arith

div_le : (a c : ℤ) → leb_ℤ (pos 0) a ≡ true → leb_ℤ (pos 1000) c ≡ true → leb_ℤ (div_ℤ a c) a ≡ true
div_le (pos m) (pos n) p q =
    let below : m * 1000 / n ≤ m * 1000 / 1000 =
      fraction_mono (m * 1000) (m * 1000) n 1000 (ground arith) (omega arith)
        (mul-le-mul_left (m * 1000) (ground arith)) in
    ground (arith, below)
div_le (negsuc m) c p q = ground arith
div_le (pos m) (negsuc n) p q = ground arith

pub fixed-Laws : Laws fixed
fixed-Laws = record {
  total = total;
  trans = trans;
  add_mono = add_mono;
  sub_mono = sub_mono;
  mul_mono = mul_mono;
  div_mono = div_mono;
  div_le = div_le;
  lit_mono = lit_mono;
  lit_pos = lit_pos;
  sub_zero = sub_zero;
  mul_nonneg = mul_nonneg;
  mul_comm = mul_ℤ_comm;
}
