-- ===== src/Trailing/Atr.antt =====
-- The ATR of `trailing/math.py`: true ranges, and Wilder's smoothing of them.
use unified_trading_executio.Base.{
  ℕ, ◌+◌, ◌-◌, List, [], ◌∷◌, length, take, drop, Result, ok, value_error, trailing_not_supported,
  raise_if, ltb, ◌>>◌,
}
use unified_trading_executio.Decimal.{pos, Decimal, div_whole, abs_dec, max_dec, ◌+ℤ◌, ◌-ℤ◌, ◌*ℤ◌}
use unified_trading_executio.Types.{Candle}

unfoldable pub true_range : Candle → (previous_close : Decimal) → Decimal
true_range c previous =
    max_dec (max_dec (c.high -ℤ c.low) (abs_dec (c.high -ℤ previous))) (abs_dec (c.low -ℤ previous))

-- The true ranges of the candles after `previous`.
unfoldable pub ranges_after : Candle → List Candle → List Decimal
ranges_after previous [] = []
ranges_after previous (c ∷ cs) = true_range c previous.close ∷ ranges_after c cs

-- The true range of every candle but the first.
unfoldable pub ranges : List Candle → List Decimal
unfolding ranges_after
ranges [] = []
ranges (c ∷ cs) = ranges_after c cs

-- `sum(xs, start)`
unfoldable pub sum_from : (start : Decimal) → List Decimal → Decimal
sum_from start [] = start
sum_from start (x ∷ xs) = sum_from (start +ℤ x) xs

-- `((atr * (period - 1)) + value) / Decimal(period)`
unfoldable pub smooth : (period : ℕ) → (atr value : Decimal) → Decimal
smooth period atr value = div_whole ((pos (period - 1) *ℤ atr) +ℤ value) period

unfoldable pub smooth_all : (period : ℕ) → (atr : Decimal) → List Decimal → Decimal
unfolding smooth
smooth_all period atr [] = atr
smooth_all period atr (v ∷ vs) = smooth_all period (smooth period atr v) vs

unfoldable pub wilder_atr : List Candle → (period : ℕ) → Result Decimal
wilder_atr candles period = do
  raise_if (ltb period 2) value_error
  raise_if (ltb (length candles) (period + 1)) trailing_not_supported
  let rs = ranges candles
  ok (smooth_all period (div_whole (sum_from (pos 0) (take period rs)) period) (drop period rs))
