-- ===== src/Trailing/Quantize.antt =====
-- The rounding of `quantize_price` in `trailing/math.py`: the quotient is itself rounded before it
-- is rounded to a whole number of ticks, and still the result is exact.
use native.Mathlib.Nat.{div-add-mod', mod-lt, div-eq_of_lt-le}
use native.Mathlib.Decide.{ℕ_discrete}
use unified_trading_executio.Base.{
  ℕ, ◌+◌, ◌*◌, ◌/◌, ◌%◌, ◌≤◌, ◌<◌, ◌≡◌, ◌≢◌, refl, ap, ok, arith, nat_eqb, Bool-cases, inl, inr,
}
use unified_trading_executio.Decimal.{
  pos, unit, to_integral_value, RoundingMode, round_down, round_up, round_half_even, round_div,
  round_half_even_near, divide_pos, scale_le, le_of_scaled, lt_of_mul-lt, mul_units,
}
use unified_trading_executio.Types.{OrderSide, buy, sell}
use unified_trading_executio.Trailing.{quantize_price, quantize_take_profit}

-- `h` is a rounded value of `m * u / t`, for a tick `t` of less than two units.
module _ (m t u h : ℕ) (tick : 0 < t) (small : t < 2 * u) (above : 2 * (h * t) ≤ 2 * (m * u) + t)
    (below : 2 * (m * u) ≤ 2 * (h * t) + t) where
  split : m / t * t + m % t ≡ m
  split = div-add-mod' m t

  rest : m % t < t
  rest = mod-lt m tick

  scaled : (m / t * t + m % t) * u ≡ m * u
  scaled = ap (λ (x : ℕ). x * u) split

  floor_le : m / t * u ≤ h
  floor_le =
      let s = le_of_scaled t (2 * (m / t * u)) (2 * h + 1) tick (omega (arith, scaled)) in
      omega arith

  lt_next : h < (m / t + 1) * u
  lt_next =
      let s = scale_le u (m % t + 1) t (omega (arith, rest)) in
      lt_of_mul-lt h ((m / t + 1) * u) t (omega (arith, scaled))

  exact : m % t ≡ 0 → h ≡ m / t * u
  exact e =
      let z : u * (m % t) ≡ u * 0 = ap (λ (x : ℕ). u * x) e in
      let s = le_of_scaled t (2 * h) (2 * (m / t * u) + 1) tick (omega (arith, scaled)) in
      omega (arith, floor_le)

  inexact : m % t ≢ 0 → m / t * u < h
  inexact e =
      let s = scale_le u 1 (m % t) (omega arith) in
      lt_of_mul-lt (m / t * u) h t (omega (arith, scaled))

  quotient_same : h / u ≡ m / t
  quotient_same = div-eq_of_lt-le u floor_le lt_next

  whole_iff : nat_eqb (h % u) 0 ≡ nat_eqb (m % t) 0
  whole_iff =
      let same : h / u * u ≡ m / t * u = ap (λ (x : ℕ). x * u) quotient_same in
      let back = div-add-mod' h u in
      elim (ℕ_discrete (m % t) 0) [
        | yes e ↦ let flat = exact e in ground arith
        | no e ↦ let more = inexact e in ground arith
      ]

  -- A rounded quotient is rounded down or up to the same whole number as the exact one.
  same_down : round_div round_down h u ≡ round_div round_down m t
  unfolding round_div
  same_down = quotient_same

  same_up : round_div round_up h u ≡ round_div round_up m t
  unfolding round_div
  same_up = rw (whole_iff, quotient_same)

-- The common grid of a value and a tick, `g` quanta, cancels from the bounds of their quotient.
cancel_grid : (g x y : ℕ) → 0 < g → x * g ≤ y * g → x ≤ y
cancel_grid g x y p h = le_of_scaled g x y p h

module _ (m t g : ℕ) (tick : 0 < t) (grid : 0 < g) (small : t < 2 * unit) where
  tick_pos : 0 < t * g
  tick_pos = grind arith

  ratio : ℕ
  ratio = round_div round_half_even (m * g * unit) (t * g)

  ratio_near : (2 * (ratio * t) ≤ 2 * (m * unit) + t) × (2 * (m * unit) ≤ 2 * (ratio * t) + t)
  unfolding ratio
  ratio_near =
      let (above, below) = round_half_even_near (m * g * unit) (t * g) tick_pos in
      (
        cancel_grid g (2 * (ratio * t)) (2 * (m * unit) + t) grid (omega arith),
        cancel_grid g (2 * (m * unit)) (2 * (ratio * t) + t) grid (omega arith),
      )

  quantize :
      (mode : RoundingMode)
      → round_div mode ratio unit ≡ round_div mode m t
      → quantize_price (pos (m * g)) (pos (t * g)) mode ≡ ok (pos (round_div mode m t * (t * g)))
  unfolding quantize_price to_integral_value ratio
  quantize mode same =
      rw (divide_pos (m * g) (t * g) tick_pos, same, mul_units (round_div mode m t) (t * g)) refl

  quantize_down : round_div round_down ratio unit ≡ round_div round_down m t
  quantize_down = same_down m t unit ratio tick small ratio_near.0 ratio_near.1

  quantize_up : round_div round_up ratio unit ≡ round_div round_up m t
  quantize_up = same_up m t unit ratio tick small ratio_near.0 ratio_near.1

-- The value lies within one tick of `k` ticks, on the side that the mode rounds from.
abbrev pub IsRounded : RoundingMode → (value tick k : ℕ) → Type 0
IsRounded round_down value tick k = (k * tick ≤ value) × (value < k * tick + tick)
IsRounded round_up value tick k = (value ≤ k * tick) × (k * tick < value + tick)
IsRounded round_half_even value tick k = Unit

round_div-IsRounded :
    (mode : RoundingMode) (m t : ℕ) → 0 < t → IsRounded mode m t (round_div mode m t)
unfolding round_div
round_div-IsRounded round_down m t h = omega (arith, div-add-mod' m t, mod-lt m h)
round_div-IsRounded round_up m t h = elim (Bool-cases (nat_eqb (m % t) 0)) [
  | inl e ↦ let z : m % t ≡ 0 = ground arith in simp e (omega (arith, div-add-mod' m t))
  | inr e ↦
      let nz : m % t ≢ 0 = ground arith in simp e (omega (arith, div-add-mod' m t, mod-lt m h))
]
round_div-IsRounded round_half_even m t h = tt

IsRounded-scale :
    (mode : RoundingMode) (m t g k : ℕ)
    → 0 < g
    → IsRounded mode m t k
    → IsRounded mode (m * g) (t * g) k
IsRounded-scale round_down m t g k p h = (
  omega (arith, scale_le g (k * t) m h.0),
  omega (arith, scale_le g (m + 1) (k * t + t) (omega arith)),
)
IsRounded-scale round_up m t g k p h = (
  omega (arith, scale_le g m (k * t) h.0),
  omega (arith, scale_le g (k * t + 1) (m + t) (omega arith)),
)
IsRounded-scale round_half_even m t g k p h = tt

-- The `k`-th tick is the one nearest to `value` on the side away from the market.
abbrev pub IsStopTick : OrderSide → (value tick k : ℕ) → Type 0
IsStopTick buy value tick k = IsRounded round_down value tick k
IsStopTick sell value tick k = IsRounded round_up value tick k

-- The `k`-th tick is the one nearest to `value` on the profitable side.
abbrev pub IsProfitTick : OrderSide → (value tick k : ℕ) → Type 0
IsProfitTick buy value tick k = IsRounded round_up value tick k
IsProfitTick sell value tick k = IsRounded round_down value tick k

-- A price of `m` grid steps and a tick of `t` of them, a step being `g` quanta.
module _ (m t g : ℕ) (tick : 0 < t) (grid : 0 < g) (small : t < 2 * unit) where
  quantized :
      (mode : RoundingMode)
      → round_div mode (ratio m t g tick grid small) unit ≡ round_div mode m t
      → (k : ℕ) × (quantize_price (pos (m * g)) (pos (t * g)) mode ≡ ok (pos (k * (t * g))))
        × IsRounded mode (m * g) (t * g) k
  quantized mode same = (
    round_div mode m t,
    quantize m t g tick grid small mode same,
    IsRounded-scale mode m t g (round_div mode m t) grid (round_div-IsRounded mode m t tick),
  )

  -- A take profit is rounded in the profitable direction under the same conditions: up for a long,
  -- down for a short.
  pub quantize_take_profit_rounds :
      (side : OrderSide)
      → (k : ℕ) × (quantize_take_profit (pos (m * g)) (pos (t * g)) side ≡ ok (pos (k * (t * g))))
        × IsProfitTick side (m * g) (t * g) k
  unfolding quantize_take_profit
  quantize_take_profit_rounds buy = quantized round_up (quantize_up m t g tick grid small)
  quantize_take_profit_rounds sell = quantized round_down (quantize_down m t g tick grid small)
