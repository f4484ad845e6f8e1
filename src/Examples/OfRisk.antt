-- ===== src/Examples/OfRisk.antt =====
-- The risk chain on the limit order.
use unified_trading_executio.Base.{ℕ, ◌+◌, ◌*◌, ◌^◌, ◌≤◌, ◌≡◌, refl, ◌↔◌, some, ok, arith}
use unified_trading_executio.Decimal.{pos, unit, magnitude, decimals, ◌-ℤ◌}
use unified_trading_executio.Types.{InstrumentId-discrete}
use unified_trading_executio.Risk.{
  RiskInputs, validate_order_size, check_price_deviation, run_risk_checks, risk_checks,
}
use unified_trading_executio.Risk.Bounds.{IsSizeAllowed, validate_order_size_iff}
use unified_trading_executio.Risk.Chain.{IsAcceptable, run_risk_checks_iff}
use unified_trading_executio.Examples.Samples.{
  dec, limit_order, pair_spec, risk_config, risk_inputs,
}

limit_order_passes : run_risk_checks limit_order risk_inputs ≡ ok tt
unfolding risk_checks decimals InstrumentId-discrete
limit_order_passes = refl

run_risk_checks_iff_example :
    (run_risk_checks limit_order risk_inputs ≡ ok tt) ↔ IsAcceptable limit_order risk_inputs
run_risk_checks_iff_example = run_risk_checks_iff limit_order risk_inputs

-- A reference price of zero.
abbrev free : RiskInputs
free = record risk_inputs { reference_price = some (dec 0) }

validate_order_size_iff_example :
    (validate_order_size limit_order pair_spec risk_config ≡ ok tt)
    ↔ IsSizeAllowed limit_order pair_spec risk_config
validate_order_size_iff_example = validate_order_size_iff limit_order pair_spec risk_config

abbrev price_101 : ℕ
price_101 = 101 * 10 ^ 28

near : check_price_deviation (dec 100) (pos price_101) (dec 20) ≡ ok tt
unfolding risk_checks decimals InstrumentId-discrete
near = refl

clearly_near :
    100 * (magnitude (dec 100 -ℤ pos price_101) * unit) + 50 * price_101 ≤ 20 * 10 ^ 28 * price_101
unfolding decimals
clearly_near = omega arith
