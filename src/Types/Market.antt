-- ===== src/Types/Market.antt =====
-- `types/market_data.py`: a price snapshot and a closed candle. A `datetime` is its instant in
-- microseconds, with the flag whether it carries a time zone.
use unified_trading_executio.Base.{
  ℕ, ◌&&◌, Bool, not, Option, none, some, or_else, Result, value_error, raise_if, ◌>>◌, leb,
}
use unified_trading_executio.Decimal.{Decimal, ◌+ℤ◌, ltb_ℤ, max_dec, min_dec, div_whole}

pub record DateTime : Type 0 where
  pub instant : ℕ
  pub aware : Bool

pub record Ticker : Type 0 where
  pub bid : Option Decimal
  pub ask : Option Decimal
  pub last : Option Decimal
  pub mark : Option Decimal

mid_of : Option Decimal → Option Decimal → Option Decimal → Option Decimal
mid_of (some b) (some a) fallback = some (div_whole (b +ℤ a) 2)
mid_of none _ fallback = fallback
mid_of (some _) none fallback = fallback

-- `Ticker.mid`
unfoldable pub mid : Ticker → Option Decimal
unfolding mid_of
mid t = mid_of t.bid t.ask (or_else t.last t.mark)

pub record Candle : Type 0 where
  pub open_time : DateTime
  pub close_time : DateTime
  pub opening : Decimal
  pub high : Decimal
  pub low : Decimal
  pub close : Decimal

-- `Candle.__post_init__`
unfoldable pub check_candle : Candle → Result (Unit {0})
check_candle c = do
  raise_if (not (c.open_time.aware && c.close_time.aware)) value_error
  raise_if (leb c.close_time.instant c.open_time.instant) value_error
  raise_if (ltb_ℤ c.high (max_dec c.opening c.close)) value_error
  raise_if (ltb_ℤ (min_dec c.opening c.close) c.low) value_error
