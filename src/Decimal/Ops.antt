-- ===== src/Decimal/Ops.antt =====
-- The operations of Python's `Decimal` that the program uses, on fixed-point numbers: a decimal is
-- a whole number of quanta of 10^-28. Sums, differences and orders are exact; a product or a
-- quotient is rounded to the quantum, ties to even, the mode of the default context.
use unified_trading_executio.Base.{
  ℕ, ◌+◌, ◌*◌, ◌^◌, ◌<◌, ◌≡◌, ◌↔◌, ◌%◌, Bool, true, if◌then◌else◌, arith, nat_eqb, Result, ok, err,
  division_error,
}
use unified_trading_executio.Decimal.Int.{
  ℤ, pos, negsuc, pos_part, neg_part, sub_ℕ, ◌*ℤ◌, ◌+ℤ◌, ◌-ℤ◌, ltb_ℤ,
}
use unified_trading_executio.Decimal.Rounding.{RoundingMode, round_half_even, round_div}

abbrev pub Decimal : Type 0
Decimal = ℤ

-- One, in quanta.
unfoldable pub unit : ℕ
unit = 10 ^ 28

pub unit_pos : 0 < unit
unfolding unit
unit_pos = omega arith

-- `Decimal(n)` for a whole number.
unfoldable pub whole : ℕ → Decimal
whole n = pos (n * unit)

abbrev pub zero_dec : Decimal
zero_dec = pos 0

abbrev pub eqb_ℤ : ℤ → ℤ → Bool
eqb_ℤ a b = nat_eqb (pos_part a + neg_part b) (pos_part b + neg_part a)

pub eqb_ℤ_iff : (a b : ℤ) → (eqb_ℤ a b ≡ true) ↔ (a ≡ b)
eqb_ℤ_iff (pos m) (pos n) = ground arith
eqb_ℤ_iff (pos m) (negsuc n) = ground arith
eqb_ℤ_iff (negsuc m) (pos n) = ground arith
eqb_ℤ_iff (negsuc m) (negsuc n) = ground arith

abbrev pub negate : ℤ → ℤ
negate a = sub_ℕ (neg_part a) (pos_part a)

-- A magnitude is rounded, and the sign kept.
abbrev pub on_magnitude : (ℕ → ℕ) → ℤ → ℤ
on_magnitude f (pos n) = pos (f n)
on_magnitude f (negsuc n) = negate (pos (f (n + 1)))

abbrev pub magnitude : ℤ → ℕ
magnitude a = pos_part a + neg_part a

-- `abs`
abbrev pub abs_dec : Decimal → Decimal
abs_dec a = pos (magnitude a)

-- `max(a, b)` and `min(a, b)` of Python: the first of two equal ones.
abbrev pub max_dec : Decimal → Decimal → Decimal
max_dec a b = if ltb_ℤ a b then b else a

abbrev pub min_dec : Decimal → Decimal → Decimal
min_dec a b = if ltb_ℤ b a then b else a

-- A number of quanta squared, as a number of quanta.
unfoldable pub rescale : ℤ → Decimal
rescale a = on_magnitude (λ n. round_div round_half_even n unit) a

-- `a * b`
unfoldable pub mul : Decimal → Decimal → Decimal
mul a b = rescale (a *ℤ b)

-- `a / n` for a whole number `n` above zero.
unfoldable pub div_whole : Decimal → ℕ → Decimal
div_whole a n = on_magnitude (λ m. round_div round_half_even m n) a

-- `a / b` for a `b` that is not zero: the sign of `a * b`, and the rounded quotient of magnitudes.
unfoldable pub quotient : Decimal → Decimal → Decimal
quotient a b =
    let m = round_div round_half_even (magnitude a * unit) (magnitude b) in
    if ltb_ℤ a (pos 0)
    then (if ltb_ℤ b (pos 0) then pos m else negate (pos m))
    else (if ltb_ℤ b (pos 0) then negate (pos m) else pos m)

-- `a / b`, which raises for a zero `b`.
unfoldable pub divide : Decimal → Decimal → Result Decimal
divide a b = if eqb_ℤ b (pos 0) then err division_error else ok (quotient a b)

-- `a % b`, with the sign of `a`; raises for a zero `b`.
unfoldable pub remainder : Decimal → Decimal → Result Decimal
remainder a b =
    if eqb_ℤ b (pos 0) then err division_error else ok (on_magnitude (λ n. n % magnitude b) a)

-- `a.to_integral_value(rounding=mode)`
unfoldable pub to_integral_value : RoundingMode → Decimal → Decimal
to_integral_value mode a = on_magnitude (λ n. round_div mode n unit * unit) a

-- What a test unfolds to compute with decimals.
unfoldable pub decimals : Unit {0}
unfolding unit whole rescale mul div_whole quotient divide remainder to_integral_value round_div
    ◌*ℤ◌ ◌+ℤ◌ ◌-ℤ◌
decimals = tt
