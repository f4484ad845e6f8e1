-- ===== src/Trailing/Math.antt =====
-- `trailing/math.py`, but for the ATR: the basis, the activation, the candidate for the stop, the
-- static levels, rounding, the minimum distance and the ratchet. A long position has the side BUY.
use unified_trading_executio.Base.{
  Bool, true, false, not, Option, none, some, Result, ok, err, value_error, trailing_state,
  raise_if, ◌>>=◌, if◌then◌else◌,
}
use unified_trading_executio.Decimal.{
  Decimal, whole, mul, div_whole, divide, to_integral_value, RoundingMode, round_down, round_up,
  ltb_ℤ, leb_ℤ, max_dec, min_dec, ◌+ℤ◌, ◌-ℤ◌,
}
use unified_trading_executio.Types.{OrderSide, buy, sell}
use unified_trading_executio.Trailing.Types.{
  TrailingSpec, TrailingActivation, immediate, profit_percent, TrailingOffsetType, ProtectionLevel,
  ProtectionLevelType,
}

-- `_require_atr`
abbrev pub require_atr : Option Decimal → Result Decimal
require_atr none = err value_error
require_atr (some v) = ok v

unfoldable pub update_best_basis : OrderSide → Option Decimal → Decimal → Decimal
update_best_basis side none basis = basis
update_best_basis buy (some best) basis = max_dec best basis
update_best_basis sell (some best) basis = min_dec best basis

-- `_ONE + ratio if long else _ONE - ratio`, for a percentage.
unfoldable pub gain_factor : OrderSide → (percent : Decimal) → Decimal
gain_factor buy p = whole 1 +ℤ div_whole p 100
gain_factor sell p = whole 1 -ℤ div_whole p 100

-- `_ONE - ratio if long else _ONE + ratio`, for a percentage.
unfoldable pub loss_factor : OrderSide → (percent : Decimal) → Decimal
loss_factor buy p = whole 1 -ℤ div_whole p 100
loss_factor sell p = whole 1 +ℤ div_whole p 100

unfoldable pub profit_percent_activation_price :
    (entry_price : Decimal) → OrderSide → Decimal → Decimal
profit_percent_activation_price entry_price side p = mul entry_price (gain_factor side p)

resolve :
    TrailingActivation
    → (target profit : Option Decimal) → OrderSide
    → Decimal
    → Result (Option Decimal)
resolve immediate t pct side entry_price = ok none
resolve TrailingActivation.price none pct side entry_price = err value_error
resolve TrailingActivation.price (some t) pct side entry_price = ok (some t)
resolve profit_percent t none side entry_price = err value_error
resolve profit_percent t (some pct) side entry_price =
    ok (some (profit_percent_activation_price entry_price side pct))

unfoldable pub resolve_activation_price :
    TrailingSpec → OrderSide → (entry_price : Decimal) → Result (Option Decimal)
unfolding resolve
resolve_activation_price spec side entry_price =
    resolve spec.activation spec.activation_price spec.activation_profit_percent side entry_price

unfoldable pub is_activation_reached : OrderSide → (basis : Decimal) → Option Decimal → Bool
is_activation_reached side basis none = true
is_activation_reached buy basis (some p) = leb_ℤ p basis
is_activation_reached sell basis (some p) = leb_ℤ basis p

-- A price below a long's, or above a short's.
abbrev pub behind : OrderSide → (price distance : Decimal) → Decimal
behind buy p d = p -ℤ d
behind sell p d = p +ℤ d

-- A price above a long's, or below a short's.
abbrev pub ahead : OrderSide → (price distance : Decimal) → Decimal
ahead buy p d = p +ℤ d
ahead sell p d = p -ℤ d

unfoldable pub candidate_of :
    TrailingOffsetType → OrderSide → (best offset : Decimal) → Option Decimal → Result Decimal
candidate_of TrailingOffsetType.price side best offset atr = ok (behind side best offset)
candidate_of TrailingOffsetType.percent side best offset atr =
    ok (mul best (loss_factor side offset))
candidate_of TrailingOffsetType.atr side best offset atr = do
  value ← require_atr atr
  ok (behind side best (mul offset value))

unfoldable pub candidate_stop :
    OrderSide → (best_basis : Decimal) → TrailingSpec → (atr : Option Decimal) → Result Decimal
unfolding candidate_of
candidate_stop side best_basis spec atr =
    candidate_of spec.offset_type side best_basis spec.offset atr

stop_level :
    ProtectionLevelType
    → OrderSide
    → (value entry_price : Decimal) → Option Decimal
    → Result Decimal
stop_level ProtectionLevelType.price side value entry_price atr = ok value
stop_level ProtectionLevelType.percent side value entry_price atr =
    ok (mul entry_price (loss_factor side value))
stop_level ProtectionLevelType.atr side value entry_price atr = do
  v ← require_atr atr
  ok (behind side entry_price (mul value v))

unfoldable pub initial_stop_price :
    ProtectionLevel → OrderSide → (entry_price : Decimal) → (atr : Option Decimal) → Result Decimal
unfolding stop_level
initial_stop_price level side entry_price atr =
    stop_level level.type side level.value entry_price atr

profit_level :
    ProtectionLevelType
    → OrderSide
    → (value entry_price : Decimal) → Option Decimal
    → Result Decimal
profit_level ProtectionLevelType.price side value entry_price atr = ok value
profit_level ProtectionLevelType.percent side value entry_price atr =
    ok (mul entry_price (gain_factor side value))
profit_level ProtectionLevelType.atr side value entry_price atr = do
  v ← require_atr atr
  ok (ahead side entry_price (mul value v))

unfoldable pub take_profit_price :
    ProtectionLevel → OrderSide → (entry_price : Decimal) → (atr : Option Decimal) → Result Decimal
unfolding profit_level
take_profit_price level side entry_price atr =
    profit_level level.type side level.value entry_price atr

pub data LevelRole : Type 0 where
  initial_stop take_profit : LevelRole

unfoldable pub is_valid_level :
    OrderSide → LevelRole → (level_price reference_price : Decimal) → Bool
is_valid_level buy initial_stop level reference = ltb_ℤ level reference
is_valid_level sell initial_stop level reference = ltb_ℤ reference level
is_valid_level buy take_profit level reference = ltb_ℤ reference level
is_valid_level sell take_profit level reference = ltb_ℤ level reference

unfoldable pub validate_level_direction :
    OrderSide → LevelRole → (level_price reference_price : Decimal) → Result (Unit {0})
unfolding is_valid_level
validate_level_direction side role level_price reference_price =
    raise_if (not (is_valid_level side role level_price reference_price)) trailing_state

unfoldable pub quantize_price : (value tick_size : Decimal) → RoundingMode → Result Decimal
quantize_price value tick_size rounding = do
  ratio ← divide value tick_size
  ok (mul (to_integral_value rounding ratio) tick_size)

abbrev pub stop_rounding : OrderSide → RoundingMode
stop_rounding buy = round_down
stop_rounding sell = round_up

abbrev pub profit_rounding : OrderSide → RoundingMode
profit_rounding buy = round_up
profit_rounding sell = round_down

unfoldable pub quantize_stop : (value tick_size : Decimal) → OrderSide → Result Decimal
quantize_stop value tick_size side = quantize_price value tick_size (stop_rounding side)

unfoldable pub quantize_take_profit : (value tick_size : Decimal) → OrderSide → Result Decimal
quantize_take_profit value tick_size side = quantize_price value tick_size (profit_rounding side)

unfoldable pub respects_min_stop_distance :
    OrderSide → (candidate basis : Decimal) → (min_stop_distance : Option Decimal) → Bool
respects_min_stop_distance side c basis none = true
respects_min_stop_distance buy c basis (some d) = leb_ℤ c (basis -ℤ d)
respects_min_stop_distance sell c basis (some d) = leb_ℤ (basis +ℤ d) c

-- `step is None or …`
abbrev clears_step : OrderSide → (current c : Decimal) → Option Decimal → Bool
clears_step side current c none = true
clears_step buy current c (some step) = leb_ℤ (current +ℤ step) c
clears_step sell current c (some step) = leb_ℤ c (current -ℤ step)

unfoldable pub ratchet_accepts :
    OrderSide
    → (current_stop : Option Decimal) → (candidate : Decimal) → (step : Option Decimal) → Bool
ratchet_accepts side none c step = true
ratchet_accepts buy (some current) c step =
    if leb_ℤ c current then false else clears_step buy current c step
ratchet_accepts sell (some current) c step =
    if leb_ℤ current c then false else clears_step sell current c step
