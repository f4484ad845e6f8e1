-- ===== src/Trailing/Types.antt =====
-- `trailing/types.py`: the request for a trailing stop and the state that is kept for it. Numbers
-- of seconds are decimals; that they are finite is a matter of the representation.
mod Enums
use unified_trading_executio.Base.{
  ℕ, Bool, true, false, not, ◌&&◌, ◌||◌, Option, none, some, is_some, Result, value_error, raise_if,
  check_some, ltb, ◌>>◌,
}
use unified_trading_executio.Decimal.{ℤ, pos, Decimal, whole, div_whole, ltb_ℤ, leb_ℤ}
use unified_trading_executio.Types.{Ident, Instrument, OrderSide, DateTime, check_aware}
unfoldable pub use Enums.*

pub record ProtectionLevel : Type 0 where
  pub type : ProtectionLevelType
  pub value : Decimal

-- `ProtectionLevel.__post_init__`
unfoldable pub check_level : ProtectionLevel → Result (Unit {0})
check_level level = raise_if (leb_ℤ level.value (pos 0)) value_error

abbrev pub is_atr_type : ProtectionLevelType → Bool
is_atr_type ProtectionLevelType.atr = true
is_atr_type _ = false

-- `_is_atr`
abbrev pub is_atr : Option ProtectionLevel → Bool
is_atr none = false
is_atr (some level) = is_atr_type level.type

abbrev pub is_atr_offset : TrailingOffsetType → Bool
is_atr_offset TrailingOffsetType.atr = true
is_atr_offset _ = false

abbrev pub is_percent_offset : TrailingOffsetType → Bool
is_percent_offset TrailingOffsetType.percent = true
is_percent_offset _ = false

pub record TrailingSpec : Type 0 where
  pub offset_type : TrailingOffsetType
  pub offset : Decimal
  pub basis : Option TrailingBasis
  pub activation : TrailingActivation
  pub activation_price : Option Decimal
  pub activation_profit_percent : Option Decimal
  pub initial_stop : Option ProtectionLevel
  pub take_profit : Option ProtectionLevel
  pub step : Option Decimal
  pub atr_period : Option ℕ
  pub atr_timeframe : Option CandleTimeframe

-- `TrailingSpec.uses_atr`
unfoldable pub uses_atr : TrailingSpec → Bool
uses_atr s = is_atr_offset s.offset_type || (is_atr s.initial_stop || is_atr s.take_profit)

-- `Decimal("0") < v < Decimal("100")`
abbrev pub is_open_percent : Decimal → Bool
is_open_percent v = ltb_ℤ (pos 0) v && ltb_ℤ v (whole 100)

abbrev not_positive : Option Decimal → Bool
not_positive none = true
not_positive (some v) = leb_ℤ v (pos 0)

abbrev not_open_percent : Option Decimal → Bool
not_open_percent none = true
not_open_percent (some v) = not (is_open_percent v)

-- `TrailingSpec._validate_activation`
unfoldable pub check_activation :
    TrailingActivation → (target profit : Option Decimal) → Result (Unit {0})
check_activation immediate p pct = raise_if (is_some p || is_some pct) value_error
check_activation TrailingActivation.price p pct = do
  raise_if (not_positive p) value_error
  raise_if (is_some pct) value_error
check_activation profit_percent p pct = do
  raise_if (not_open_percent pct) value_error
  raise_if (is_some p) value_error

-- `TrailingSpec._validate_atr`
unfoldable pub check_atr :
    (uses : Bool) → (period : Option ℕ) → Option CandleTimeframe → Result (Unit {0})
check_atr uses period timeframe = do
  raise_if (uses && not (is_some period && is_some timeframe)) value_error
  raise_if (not uses && (is_some period || is_some timeframe)) value_error
  check_some period λ p. raise_if (ltb p 2) value_error

-- `TrailingSpec.__post_init__`
unfoldable pub check_spec : TrailingSpec → Result (Unit {0})
check_spec s = do
  raise_if (leb_ℤ s.offset (pos 0)) value_error
  raise_if (is_percent_offset s.offset_type && not (is_open_percent s.offset)) value_error
  check_some s.step λ v. raise_if (ltb_ℤ v (pos 0)) value_error
  check_activation s.activation s.activation_price s.activation_profit_percent
  check_atr (uses_atr s) s.atr_period s.atr_timeframe

pub record TrailingConfig : Type 0 where
  pub poll_interval_seconds : Decimal
  pub max_concurrent_fetches : ℤ
  pub fetch_failure_threshold : ℤ
  pub protection_failure_threshold : ℤ
  pub rearm_on_reconnect : Bool
  pub candle_settle_seconds : Decimal
  pub atr_stale_after_candles : ℤ
  pub publish_ticker_events : Bool

-- `TrailingConfig.__post_init__`
unfoldable pub check_config : TrailingConfig → Result (Unit {0})
check_config c = do
  raise_if (ltb_ℤ c.poll_interval_seconds (div_whole (whole 1) 10)) value_error
  raise_if (ltb_ℤ c.max_concurrent_fetches (pos 1)) value_error
  raise_if (ltb_ℤ c.fetch_failure_threshold (pos 1)) value_error
  raise_if (ltb_ℤ c.protection_failure_threshold (pos 1)) value_error
  raise_if (ltb_ℤ c.candle_settle_seconds (pos 0)) value_error
  raise_if (ltb_ℤ c.atr_stale_after_candles (pos 1)) value_error

pub record TrailingState : Type 0 where
  pub trailing_id : Ident
  pub instrument : Instrument
  pub position_id : Ident
  pub mode : TrailingMode
  pub phase : TrailingPhase
  pub spec : TrailingSpec
  pub side : OrderSide
  pub entry_price : Decimal
  pub quantity : Decimal
  pub created_at : DateTime
  pub updated_at : DateTime
  pub position_opened_at : Option DateTime
  pub routing_reason : Option RoutingReason
  pub resolved_basis : Option TrailingBasis
  pub protection_trigger_basis : Option TrailingBasis
  pub current_stop : Option Decimal
  pub current_take_profit : Option Decimal
  pub stop_owned : Bool
  pub take_profit_owned : Bool
  pub previous_stop_loss : Option Decimal
  pub previous_take_profit : Option Decimal
  pub best_basis : Option Decimal
  pub resolved_activation_price : Option Decimal
  pub activated : Bool
  pub atr_value : Option Decimal
  pub atr_as_of : Option DateTime
  pub native_id : Option Ident
  pub last_reprice_at : Option DateTime
  pub reprice_count : ℕ
  pub last_error : Option Note
  pub failure_count : ℕ

abbrev pub is_auto : TrailingMode → Bool
is_auto auto = true
is_auto _ = false

-- `TrailingState.__post_init__`
unfoldable pub check_state : TrailingState → Result (Unit {0})
check_state s = do
  raise_if (is_auto s.mode) value_error
  raise_if (ltb_ℤ s.quantity (pos 0)) value_error
  check_aware s.created_at
  check_aware s.updated_at
  check_some s.position_opened_at check_aware
  check_some s.atr_as_of check_aware
  check_some s.last_reprice_at check_aware
