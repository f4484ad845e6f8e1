-- ===== src/Decimal/Rounding.antt =====
-- Quotients of natural numbers, rounded down, up, or to the nearest with ties to even, as the
-- modes ROUND_DOWN, ROUND_UP and ROUND_HALF_EVEN of Python's `decimal` do on a magnitude.
use native.Mathlib.Nat.{div-add-mod', mod-lt, mul-mod_left, mul-div_cancel}
use unified_trading_executio.Base.{
  ℕ, ◌+◌, ◌*◌, ◌/◌, ◌%◌, ◌≤◌, ◌<◌, ◌≡◌, ◌⊎◌, arith, ltb, nat_eqb, if◌then◌else◌, inl, inr,
}

pub data RoundingMode : Type 0 where
  round_down round_up round_half_even : RoundingMode

half_even : (q r d : ℕ) → ℕ
half_even q r d =
    if ltb (2 * r) d
    then q
    else if ltb d (2 * r)
    then q + 1
    else if nat_eqb (q % 2) 0
    then q
    else q + 1

unfoldable pub round_div : RoundingMode → ℕ → ℕ → ℕ
unfolding half_even
round_div round_down n d = n / d
round_div round_up n d = if nat_eqb (n % d) 0 then n / d else n / d + 1
round_div round_half_even n d = half_even (n / d) (n % d) d

half_even_cases :
    (q r d : ℕ) → ((half_even q r d ≡ q) × (2 * r ≤ d)) ⊎ ((half_even q r d ≡ q + 1) × (d ≤ 2 * r))
unfolding half_even
half_even_cases q r d = ground arith

half_even_near :
    (q r d : ℕ)
    → r < d
    → (2 * (half_even q r d * d) ≤ 2 * (q * d + r) + d)
      × (2 * (q * d + r) ≤ 2 * (half_even q r d * d) + d)
half_even_near q r d p = elim (half_even_cases q r d) [
  | inl (e, h) ↦ rw e (omega arith)
  | inr (e, h) ↦ rw e (omega arith)
]

-- The distance from the exact quotient is at most a half.
pub round_half_even_near :
    (n d : ℕ)
    → 0 < d
    → let h = round_div round_half_even n d in (2 * (h * d) ≤ 2 * n + d) × (2 * n ≤ 2 * (h * d) + d)
unfolding round_div
round_half_even_near n d p =
    omega (arith, half_even_near (n / d) (n % d) d (mod-lt n p), div-add-mod' n d)

pub lt_of_mul-lt : (a b d : ℕ) → a * d < b * d → a < b
lt_of_mul-lt a b d h = grind arith

quotient_mono : (q r s t d : ℕ) → r < d → q * d + r ≤ s * d + t → t < d → q ≤ s
quotient_mono q r s t d p h k = grind arith

half_even_mono :
    (q r s t d : ℕ) → r < d → t < d → q * d + r ≤ s * d + t → half_even q r d ≤ half_even s t d
unfolding half_even
half_even_mono q r s t d p k h = grind (arith, quotient_mono q r s t d p h k)

pub round_div_mono :
    (n m d : ℕ) → 0 < d → n ≤ m → round_div round_half_even n d ≤ round_div round_half_even m d
unfolding round_div
round_div_mono n m d p h =
    half_even_mono (n / d) (n % d) (m / d) (m % d) d (mod-lt n p) (mod-lt m p)
      (omega (arith, div-add-mod' n d, div-add-mod' m d))

half_even_zero : (q d : ℕ) → 0 < d → half_even q 0 d ≡ q
half_even_zero q d p = elim (half_even_cases q 0 d) [
  | inl (e, _) ↦ e
  | inr (_, h) ↦ absurd (omega arith)
]

-- A quotient that comes out even is not rounded.
pub round_div_exact : (mode : RoundingMode) (k d : ℕ) → 0 < d → round_div mode (k * d) d ≡ k
unfolding round_div
round_div_exact round_down k d p = mul-div_cancel k p
round_div_exact round_up k d p = rw (mul-mod_left k d, mul-div_cancel k p)
round_div_exact round_half_even k d p =
    rw (mul-mod_left k d, mul-div_cancel k p) (half_even_zero k d p)
