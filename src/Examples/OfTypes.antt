-- ===== src/Examples/OfTypes.antt =====
-- Orders, instruments and candles that are checked.
use unified_trading_executio.Base.{◌≡◌, refl, ◌||◌, true, ok}
use unified_trading_executio.Decimal.{unit}
use unified_trading_executio.Types.{
  make_instrument, normalize, check_identity, upper, is_blank, check_order, is_pair, is_perpetual,
}
use unified_trading_executio.Examples.Samples.{pair, limit_order}

limit_order_checked : check_order 0 limit_order ≡ ok tt
unfolding check_order unit
limit_order_checked = refl

pair_made : make_instrument pair ≡ ok pair
unfolding make_instrument normalize check_identity upper is_blank
pair_made = refl

pair_is_pair : (is_pair pair.asset_class || is_perpetual pair.identity) ≡ true
unfolding is_pair
pair_is_pair = refl
