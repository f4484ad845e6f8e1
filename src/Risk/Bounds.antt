-- ===== src/Risk/Bounds.antt =====
-- What the size validator of `risk/__init__.py` accepts.
use native.Mathlib.Nat.{mul-mod_left, div-add-mod'}
use unified_trading_executio.Base.{
  ℕ, ◌*◌, ◌/◌, ◌%◌, ◌<◌, ◌≡◌, refl, ◌↔◌, Option, none, some, lookup, arith, ok, check_some,
}
use unified_trading_executio.Decimal.{Decimal, magnitude, remainder, mul, ◌≤ℤ◌}
use unified_trading_executio.Types.{InstrumentSpec, UnifiedOrder, instrument_key}
use unified_trading_executio.Risk.{
  Cap, RiskConfig, qty_tick, check_tick, check_notional, validate_order_size,
}

-- `value <= cap`
abbrev pub IsWithin : Cap → Decimal → Type 0
IsWithin none v = Unit
IsWithin (some c) v = v ≤ℤ c

-- `q` is a whole number of ticks, and the tick is not zero.
pub record IsOnTick (tick q : Decimal) : Type 0 where
  pub tick_pos : 0 < magnitude tick
  pub steps : ℕ
  pub total : magnitude q ≡ steps * magnitude tick

abbrev pub IsNotionalAllowed : (cap per_instrument : Cap) (least notional : Decimal) → Type 0
IsNotionalAllowed cap per_instrument least notional =
    IsWithin per_instrument notional × IsWithin cap notional × (least ≤ℤ notional)

-- The notional of an order is bounded only if the order has a price.
abbrev pub IsPriceAllowed :
    (cap per_instrument : Cap) (least qty : Decimal) → Option Decimal → Type 0
IsPriceAllowed cap per_instrument least qty none = Unit
IsPriceAllowed cap per_instrument least qty (some price) =
    IsNotionalAllowed cap per_instrument least (mul qty price)

pub record IsSizeAllowed (order : UnifiedOrder) (spec : InstrumentSpec) (config : RiskConfig)
    : Type 0 where
  pub at_least : spec.min_qty ≤ℤ order.quantity
  pub at_most : order.quantity ≤ℤ spec.max_qty
  pub on_tick : IsOnTick (qty_tick spec) order.quantity
  pub in_instrument_cap :
      IsWithin (lookup order.instrument.identity config.per_instrument_max_size) order.quantity
  pub in_cap : IsWithin config.max_order_size order.quantity
  pub notional_allowed :
      IsPriceAllowed config.max_order_notional
        (lookup order.instrument.identity config.per_instrument_max_notional)
        spec.min_notional
        order.quantity
        order.price

check_notional_iff :
    (cap per_instrument : Cap) (least notional : Decimal)
    → (check_notional cap per_instrument least notional ≡ ok tt)
      ↔ IsNotionalAllowed cap per_instrument least notional
unfolding check_notional
check_notional_iff cap per_instrument least notional = (λ h. ground arith, λ h. ground arith)

mod_zero→IsOnTick :
    (tick q : Decimal) → 0 < magnitude tick → magnitude q % magnitude tick ≡ 0 → IsOnTick tick q
mod_zero→IsOnTick tick q p e = record {
  tick_pos = p;
  steps = magnitude q / magnitude tick;
  total = omega (arith, div-add-mod' (magnitude q) (magnitude tick));
}

IsOnTick→mod_zero : (tick q : Decimal) → IsOnTick tick q → magnitude q % magnitude tick ≡ 0
IsOnTick→mod_zero tick q h = rw (h.total) (mul-mod_left h.steps (magnitude tick))

check_tick_iff : (tick q : Decimal) → (check_tick tick q ≡ ok tt) ↔ IsOnTick tick q
unfolding check_tick remainder
check_tick_iff tick q = (
  λ h. mod_zero→IsOnTick tick q (ground arith) (ground arith),
  λ h. ground (arith, IsOnTick→mod_zero tick q h),
)

check_price_iff :
    (cap per_instrument : Cap) (least qty : Decimal) (price : Option Decimal)
    → (check_some price (λ p. check_notional cap per_instrument least (mul qty p)) ≡ ok tt)
      ↔ IsPriceAllowed cap per_instrument least qty price
check_price_iff cap per_instrument least qty none = (λ h. tt, λ h. refl)
check_price_iff cap per_instrument least qty (some p) =
    check_notional_iff cap per_instrument least (mul qty p)

-- The size validator passes exactly when the quantity lies between the platform's bounds, is a
-- whole number of ticks, exceeds no configured cap, and, for an order with a price, the notional
-- exceeds no cap and is at least the platform's minimum.
pub validate_order_size_iff :
    (order : UnifiedOrder) (spec : InstrumentSpec) (config : RiskConfig)
    → (validate_order_size order spec config ≡ ok tt) ↔ IsSizeAllowed order spec config
unfolding validate_order_size
validate_order_size_iff order spec config =
    let key = order.instrument.identity in
    let tick = check_tick_iff (qty_tick spec) order.quantity in
    let price =
      check_price_iff config.max_order_notional (lookup key config.per_instrument_max_notional)
        spec.min_notional order.quantity order.price in
    (
      λ h. ground (arith, tick.0, price.0),
      λ h. ground (arith, tick.1 h.on_tick, price.1 h.notional_allowed),
    )
