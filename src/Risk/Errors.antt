-- ===== src/Risk/Errors.antt =====
-- Which errors the chain of validators in `risk/__init__.py` raises, and when.
use unified_trading_executio.Base.{
  ◌≡◌, ◌⊎◌, true, Option, none, some, Result, ok, err, Error, check_some, invalid_symbol,
  duplicate_order_id, rate_limit, division_error,
}
use unified_trading_executio.Decimal.{pos, Decimal, magnitude, ◌≤ℤ◌}
use unified_trading_executio.Types.{InstrumentSpec, Ident, UnifiedOrder, instrument_key}
use unified_trading_executio.Risk.{
  RiskInputs, qty_tick, check_price_deviation, check_attached, is_known,
}
use unified_trading_executio.Risk.Chain.{IsSized, IsPriceSane, IsNew}

-- A failed check raises an invalid symbol, or divides by zero where `Z` holds.
abbrev Fails : Type 0 → Result (Unit {0}) → Type 0
Fails Z (ok _) = Unit
Fails Z (err invalid_symbol) = Unit
Fails Z (err division_error) = Z
Fails Z (err _) = ⊥

abbrev HasZeroReference : Option Decimal → Type 0
HasZeroReference none = ⊥
HasZeroReference (some r) = magnitude r ≡ 0

abbrev HasZeroTick : Option InstrumentSpec → Type 0
HasZeroTick none = ⊥
HasZeroTick (some spec) = magnitude (qty_tick spec) ≡ 0

module _ (o : UnifiedOrder) (r max : Decimal) where
  abbrev check : Decimal → Result (Unit {0})
  check p = check_price_deviation p r max

  abbrev of_price : Result (Unit {0})
  of_price = check_some o.price check

  abbrev of_stop : Result (Unit {0})
  of_stop = check_some o.stop_price check

  abbrev of_take_profit : Result (Unit {0})
  of_take_profit = check_attached r max o.take_profit

  abbrev of_stop_loss : Result (Unit {0})
  of_stop_loss = check_attached r max o.stop_loss

  abbrev Zero : Type 0
  Zero = magnitude r ≡ 0

-- What each error of the chain tells of the order.
abbrev pub Explains : UnifiedOrder → RiskInputs → Error → Type 0
Explains o inputs invalid_symbol = Unit
Explains o inputs division_error =
    HasZeroReference inputs.reference_price ⊎ HasZeroTick inputs.instrument_spec
Explains o inputs duplicate_order_id =
    IsSized o inputs.instrument_spec inputs.config
    × IsPriceSane o inputs.reference_price inputs.config.max_price_deviation_pct
    × (cid : Ident) × (o.client_order_id ≡ some cid)
    × (is_known cid inputs.known_order_ids ≡ true)
Explains o inputs rate_limit =
    IsSized o inputs.instrument_spec inputs.config
    × IsPriceSane o inputs.reference_price inputs.config.max_price_deviation_pct
    × IsNew o.client_order_id inputs.known_order_ids
    × (inputs.remaining_budget ≤ℤ pos 0)
Explains o inputs _ = ⊥

-- What holds of the error that a call raises.
abbrev OnError : (Error → Type 0) → Result (Unit {0}) → Type 0
OnError E (ok _) = Unit
OnError E (err e) = E e
