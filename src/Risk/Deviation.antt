-- ===== src/Risk/Deviation.antt =====
-- The fat-finger check of `risk/__init__.py` against the exact ratio of the two prices.
use unified_trading_executio.Base.{ℕ, ◌+◌, ◌*◌, ◌<◌, ◌≤◌, ◌≡◌, refl, ok, arith}
use unified_trading_executio.Decimal.{
  pos, Decimal, magnitude, unit, mul-whole, scale_le, le_of_scaled, divide_pos, round_div,
  round_half_even, round_half_even_near, ◌-ℤ◌,
}
use unified_trading_executio.Risk.{deviation, check_price_deviation}

bound_above : (q m r d : ℕ) → q * 100 ≤ m → 2 * d ≤ 2 * (q * r) + r → 100 * d ≤ (m + 50) * r
bound_above q m r d h k = omega (arith, scale_le r (q * 100) m h)

bound_below :
    (q m r d : ℕ) → 0 < r → 2 * (q * r) ≤ 2 * d + r → 100 * d + 50 * r ≤ m * r → q * 100 ≤ m
bound_below q m r d p h k = le_of_scaled r (q * 100) m p (omega arith)

-- The deviation of a price from a reference price `r` above zero.
deviation_pos :
    (p : Decimal) (r : ℕ)
    → 0 < r
    → deviation p (pos r)
      ≡ ok (pos (round_div round_half_even (magnitude (p -ℤ pos r) * unit) r * 100))
unfolding deviation
deviation_pos p r h = rw (divide_pos (magnitude (p -ℤ pos r)) r h, mul-whole) refl

-- Against a reference price `r` above zero, a price passes the check only if its distance from
-- `r`, a hundredfold, is at most `max` percent of `r` and a rounding error of 50 quanta per unit
-- of `r`.
pub check_price_deviation_sound :
    (p : Decimal) (r m : ℕ)
    → 0 < r
    → check_price_deviation p (pos r) (pos m) ≡ ok tt
    → 100 * (magnitude (p -ℤ pos r) * unit) ≤ (m + 50) * r
unfolding check_price_deviation
check_price_deviation_sound p r m h passed =
    let q = round_div round_half_even (magnitude (p -ℤ pos r) * unit) r in
    let small : q * 100 ≤ m = ground (arith, deviation_pos p r h) in
    let near = round_half_even_near (magnitude (p -ℤ pos r) * unit) r h in
    bound_above q m r _ small near.1

-- Conversely a price whose distance, a hundredfold, stays 50 quanta per unit of `r` below `max`
-- percent of `r` passes.
pub check_price_deviation_complete :
    (p : Decimal) (r m : ℕ)
    → 0 < r
    → 100 * (magnitude (p -ℤ pos r) * unit) + 50 * r ≤ m * r
    → check_price_deviation p (pos r) (pos m) ≡ ok tt
unfolding check_price_deviation
check_price_deviation_complete p r m h close =
    let q = round_div round_half_even (magnitude (p -ℤ pos r) * unit) r in
    let near = round_half_even_near (magnitude (p -ℤ pos r) * unit) r h in
    let small : q * 100 ≤ m = bound_below q m r _ h near.0 close in
    ground (arith, deviation_pos p r h)
