-- ===== src/Trailing/Levels.antt =====
-- `trailing/manager.py`: the first stop and the take profit of a new trailing stop.
use unified_trading_executio.Base.{
  Bool, true, false, not, ◌&&◌, Option, none, some, Result, ok, raise_if, trailing_not_supported,
  ◌>>=◌, ◌>>◌, if◌then◌else◌,
}
use unified_trading_executio.Decimal.{Decimal, pos, whole, leb_ℤ}
use unified_trading_executio.Types.{OrderSide, InstrumentSpec}
use unified_trading_executio.Trailing.Types.{ProtectionLevelType, ProtectionLevel, TrailingSpec}
use unified_trading_executio.Trailing.Math.{
  initial_stop, take_profit, initial_stop_price, take_profit_price, candidate_stop, quantize_stop,
  quantize_take_profit, validate_level_direction, respects_min_stop_distance,
}

abbrev is_percent_type : ProtectionLevelType → Bool
is_percent_type ProtectionLevelType.percent = true
is_percent_type _ = false

-- The stop before it is rounded, if there is one.
unfoldable pub raw_stop :
    TrailingSpec
    → OrderSide
    → (entry basis : Decimal) → (atr : Option Decimal) → (activated : Bool) → Option ProtectionLevel
    → Result (Option Decimal)
raw_stop spec side entry basis atr activated (some level) = do
  raise_if (is_percent_type level.type && leb_ℤ (whole 100) level.value) trailing_not_supported
  stop ← initial_stop_price level side entry atr
  ok (some stop)
raw_stop spec side entry basis atr activated none =
    if activated then (do stop ← candidate_stop side basis spec atr; ok (some stop)) else ok none

unfoldable pub checked_stop :
    OrderSide → (basis : Decimal) → InstrumentSpec → Option Decimal → Result (Option Decimal)
checked_stop side basis rules none = ok none
checked_stop side basis rules (some raw) = do
  stop ← quantize_stop raw rules.tick_size side
  raise_if (leb_ℤ stop (pos 0)) trailing_not_supported
  validate_level_direction side initial_stop stop basis
  raise_if (not (respects_min_stop_distance side stop basis rules.min_stop_distance))
      trailing_not_supported
  ok (some stop)

-- `_first_stop`
unfoldable pub first_stop :
    TrailingSpec
    → OrderSide
    → (entry basis : Decimal) → (atr : Option Decimal) → InstrumentSpec
    → (activated : Bool) → Result (Option Decimal)
first_stop spec side entry basis atr rules activated = do
  raw ← raw_stop spec side entry basis atr activated spec.initial_stop
  checked_stop side basis rules raw

-- `_take_profit`
unfoldable pub first_profit :
    OrderSide
    → (entry : Decimal) → (atr : Option Decimal) → InstrumentSpec
    → Option ProtectionLevel
    → Result (Option Decimal)
first_profit side entry atr rules none = ok none
first_profit side entry atr rules (some level) = do
  raw ← take_profit_price level side entry atr
  price ← quantize_take_profit raw rules.tick_size side
  raise_if (leb_ℤ price (pos 0)) trailing_not_supported
  validate_level_direction side take_profit price entry
  ok (some price)
