-- ===== src/Decimal/Laws.antt =====
-- Laws of the decimal operations: signs, monotonicity, and the products that are exact.
use unified_trading_executio.Base.{ok, refl, ◌∙◌, ap, ℕ, ◌+◌, ◌*◌, ◌<◌, ◌≤◌, ◌≡◌, arith}
use native.Mathlib.Nat.{mul_assoc}
use unified_trading_executio.Decimal.Int.{
  ℤ, pos, negsuc, pos_part, neg_part, ◌*ℤ◌, *ℤ_parts, eq_of_parts, ◌<ℤ◌, ◌≤ℤ◌,
}
use unified_trading_executio.Decimal.Rounding.{
  round_half_even, round_div, round_div_mono, round_div_exact,
}
use unified_trading_executio.Decimal.Ops.{
  Decimal, unit, unit_pos, on_magnitude, rescale, mul, whole, quotient, divide, div_whole,
}

-- A monotone function on magnitudes is monotone on integers.
on_magnitude_mono :
    (f : ℕ → ℕ)
    → ((n m : ℕ) → n ≤ m → f n ≤ f m)
    → (a b : ℤ) → a ≤ℤ b
    → on_magnitude f a ≤ℤ on_magnitude f b
on_magnitude_mono f h (pos n) (pos m) p = ground (arith, h n m)
on_magnitude_mono f h (pos n) (negsuc m) p = absurd (omega arith)
on_magnitude_mono f h (negsuc n) (pos m) p = ground arith
on_magnitude_mono f h (negsuc n) (negsuc m) p = ground (arith, h (m + 1) (n + 1))

pub div_whole_mono : (n : ℕ) → 0 < n → (a b : Decimal) → a ≤ℤ b → div_whole a n ≤ℤ div_whole b n
unfolding div_whole
div_whole_mono n p a b h =
    on_magnitude_mono (λ m. round_div round_half_even m n) (λ i j. round_div_mono i j n p) a b h

pub div_whole_nonneg : (n : ℕ) (a : Decimal) → pos 0 ≤ℤ a → pos 0 ≤ℤ div_whole a n
unfolding div_whole
div_whole_nonneg n (pos m) h = omega arith
div_whole_nonneg n (negsuc m) h = absurd (omega arith)

pub rescale_mono : (a b : ℤ) → a ≤ℤ b → rescale a ≤ℤ rescale b
unfolding rescale
rescale_mono a b h =
    on_magnitude_mono (λ n. round_div round_half_even n unit)
      (λ i j. round_div_mono i j unit unit_pos) a b h

-- An integer times `unit` is rescaled to that integer.
pub rescale_exact : (n : ℕ) → rescale (pos (n * unit)) ≡ pos n
unfolding rescale
rescale_exact n = rw (round_div_exact round_half_even n unit unit_pos)

pub scale_le : (n x y : ℕ) → x ≤ y → n * x ≤ n * y
scale_le n x y h = grind arith

pub le_of_scaled : (n x y : ℕ) → 0 < n → x * n ≤ y * n → x ≤ y
le_of_scaled n x y p h = grind arith

*ℤ_mono_right : (n : ℕ) (b c : ℤ) → b ≤ℤ c → pos n *ℤ b ≤ℤ pos n *ℤ c
*ℤ_mono_right n b c h = omega (
  arith,
  scale_le n (pos_part b + neg_part c) (pos_part c + neg_part b) h,
  *ℤ_parts (pos n) b,
  *ℤ_parts (pos n) c,
)

*ℤ_nonneg : (a b : ℤ) → pos 0 ≤ℤ a → pos 0 ≤ℤ b → pos 0 ≤ℤ a *ℤ b
*ℤ_nonneg (pos n) b h k =
    omega (arith, scale_le n (neg_part b) (pos_part b) (omega arith), *ℤ_parts (pos n) b)
*ℤ_nonneg (negsuc n) b h k = absurd (omega arith)

-- Multiplying by a factor of at least zero keeps the order.
pub mul_mono_right : (a b c : Decimal) → pos 0 ≤ℤ a → b ≤ℤ c → mul a b ≤ℤ mul a c
unfolding mul
mul_mono_right (pos n) b c h k = rescale_mono (pos n *ℤ b) (pos n *ℤ c) (*ℤ_mono_right n b c k)
mul_mono_right (negsuc n) b c h k = absurd (omega arith)

on_magnitude_nonneg : (f : ℕ → ℕ) (a : ℤ) → pos 0 ≤ℤ a → pos 0 ≤ℤ on_magnitude f a
on_magnitude_nonneg f (pos n) h = omega arith
on_magnitude_nonneg f (negsuc n) h = absurd (omega arith)

pub mul_nonneg : (a b : Decimal) → pos 0 ≤ℤ a → pos 0 ≤ℤ b → pos 0 ≤ℤ mul a b
unfolding mul rescale
mul_nonneg a b h k =
    on_magnitude_nonneg (λ n. round_div round_half_even n unit) (a *ℤ b) (*ℤ_nonneg a b h k)

pub *ℤ_pos : (n m : ℕ) → pos n *ℤ pos m ≡ pos (n * m)
unfolding ◌*ℤ◌
*ℤ_pos n m = ground arith

-- A product with a whole number is exact.
pub mul-whole : (q n : ℕ) → mul (pos q) (whole n) ≡ pos (q * n)
unfolding mul whole
mul-whole q n = rw (*ℤ_pos q (n * unit), ← mul_assoc q n unit) (rescale_exact (q * n))

-- The quotient of two numbers of at least zero.
pub quotient_pos :
    (n d : ℕ) → quotient (pos n) (pos d) ≡ pos (round_div round_half_even (n * unit) d)
unfolding quotient
quotient_pos n d = ground arith

pub divide_pos :
    (n d : ℕ) → 0 < d → divide (pos n) (pos d) ≡ ok (pos (round_div round_half_even (n * unit) d))
unfolding divide
divide_pos n d h = ground (arith, quotient_pos n d)

*ℤ_comm : (a b : ℤ) → a *ℤ b ≡ b *ℤ a
*ℤ_comm a b = omega (arith, *ℤ_parts a b, *ℤ_parts b a, eq_of_parts)

pub mul_comm_dec : (a b : Decimal) → mul a b ≡ mul b a
unfolding mul
mul_comm_dec a b = rw (*ℤ_comm a b) refl

pub mul_mono_left : (a b c : Decimal) → pos 0 ≤ℤ c → a ≤ℤ b → mul a c ≤ℤ mul b c
mul_mono_left a b c h k = rw (mul_comm_dec a c, mul_comm_dec b c) (mul_mono_right c a b h k)

pub mul_one : (n : ℕ) → mul (pos n) (whole 1) ≡ pos n
mul_one n = mul-whole n 1 ∙ ap pos (omega arith)

pub div_whole_exact : (k n : ℕ) → 0 < n → div_whole (pos (k * n)) n ≡ pos k
unfolding div_whole
div_whole_exact k n p = rw (round_div_exact round_half_even k n p)

-- Less than a hundred percent is at most one.
pub percent_le_one : (p : Decimal) → p <ℤ whole 100 → div_whole p 100 ≤ℤ whole 1
unfolding whole
percent_le_one p h =
    rw (div_whole_exact (1 * unit) 100 (omega arith)) at
      (div_whole_mono 100 (omega arith) p (pos (1 * unit * 100)) (omega arith))

-- A whole number of units times a decimal is exact.
pub mul_units : (k n : ℕ) → mul (pos (k * unit)) (pos n) ≡ pos (k * n)
unfolding mul
mul_units k n =
    let swap : k * unit * n ≡ k * n * unit = omega arith in
    rw (*ℤ_pos (k * unit) n, swap) (rescale_exact (k * n))
