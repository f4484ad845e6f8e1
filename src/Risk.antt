-- ===== src/Risk.antt =====
-- `packages/core/src/unified_trading_execution/risk/__init__.py`: the five validators that run
-- before every dispatch, and the chain. A validator returns nothing, or the error that it raises.
pub mod Bounds
pub mod Chain
pub mod Deviation
pub mod Errors
use unified_trading_executio.Base.{
  ℕ, ◌^◌, Bool, true, false, not, Option, none, some, List, [], ◌∷◌, Dict, lookup, ℕ_key, ◌==◌,
  ◌||◌, Result, ok, err, invalid_symbol, duplicate_order_id, rate_limit, raise_if, check_some,
  ◌>>=◌, ◌>>◌,
}
use unified_trading_executio.Decimal.{
  ℤ, pos, Decimal, whole, mul, div_whole, divide, remainder, abs_dec, ltb_ℤ, leb_ℤ, eqb_ℤ, ◌-ℤ◌,
}
use unified_trading_executio.Types.{
  InstrumentId, InstrumentSpec, Ident, TpSlAttachment, UnifiedOrder, instrument_key,
}

-- A cap: `none` is `Decimal("Inf")`.
abbrev pub Cap : Type 0
Cap = Option Decimal

-- `value > cap`
abbrev pub exceeds : Cap → Decimal → Bool
exceeds none v = false
exceeds (some c) v = ltb_ℤ c v

pub record RiskConfig : Type 0 where
  pub max_order_size : Cap
  pub max_order_notional : Cap
  pub per_instrument_max_size : Dict InstrumentId Decimal
  pub per_instrument_max_notional : Dict InstrumentId Decimal
  pub max_price_deviation_pct : Decimal
  pub rate_limit_budget_override : Option ℤ

unfoldable pub validate_symbol_validity : Option InstrumentSpec → Result (Unit {0})
validate_symbol_validity none = err invalid_symbol
validate_symbol_validity (some _) = ok tt

-- `Decimal("1") / (10**qty_precision)`
unfoldable pub qty_tick : InstrumentSpec → Decimal
qty_tick spec = div_whole (whole 1) (10 ^ spec.qty_precision)

-- `if qty % qty_tick != 0: raise`
unfoldable pub check_tick : (tick qty : Decimal) → Result (Unit {0})
check_tick tick qty = do
  rest ← remainder qty tick
  raise_if (not (eqb_ℤ rest (pos 0))) invalid_symbol

-- The checks of the notional of an order with a price, and the lower bound below them.
unfoldable pub check_notional :
    (cap per_instrument : Cap) (least notional : Decimal) → Result (Unit {0})
check_notional cap per_instrument least notional = do
  raise_if (exceeds per_instrument notional) invalid_symbol
  raise_if (exceeds cap notional) invalid_symbol
  raise_if (ltb_ℤ notional least) invalid_symbol

unfoldable pub validate_order_size : UnifiedOrder → InstrumentSpec → RiskConfig → Result (Unit {0})
validate_order_size order spec config = do
  let qty = order.quantity
  let key = order.instrument.identity
  raise_if (ltb_ℤ qty spec.min_qty) invalid_symbol
  raise_if (ltb_ℤ spec.max_qty qty) invalid_symbol
  check_tick (qty_tick spec) qty
  raise_if (exceeds (lookup key config.per_instrument_max_size) qty) invalid_symbol
  raise_if (exceeds config.max_order_size qty) invalid_symbol
  check_some order.price λ price.
      check_notional config.max_order_notional (lookup key config.per_instrument_max_notional)
        spec.min_notional (mul qty price)

-- `abs(price - reference_price) / reference_price * 100`
unfoldable pub deviation : (price reference_price : Decimal) → Result Decimal
deviation price reference_price = do
  ratio ← divide (abs_dec (price -ℤ reference_price)) reference_price
  ok (mul ratio (whole 100))

unfoldable pub check_price_deviation : (price reference_price max_pct : Decimal) → Result (Unit {0})
check_price_deviation price reference_price max_pct = do
  d ← deviation price reference_price
  raise_if (ltb_ℤ max_pct d) invalid_symbol

-- The trigger price of a TP or SL, and its limit price if it has one.
unfoldable pub check_attached :
    (reference_price max_pct : Decimal) → Option TpSlAttachment → Result (Unit {0})
check_attached reference_price max_pct none = ok tt
check_attached reference_price max_pct (some a) = do
  check_price_deviation a.trigger_price reference_price max_pct
  check_some a.limit_price λ p. check_price_deviation p reference_price max_pct

-- With no reference price the check is skipped.
unfoldable pub validate_price_sanity :
    UnifiedOrder → (reference_price : Option Decimal) → RiskConfig → Result (Unit {0})
validate_price_sanity order reference_price config = check_some reference_price λ reference. do
  let max_pct = config.max_price_deviation_pct
  check_some order.price (λ p. check_price_deviation p reference max_pct)
  check_some order.stop_price (λ p. check_price_deviation p reference max_pct)
  check_attached reference max_pct order.take_profit
  check_attached reference max_pct order.stop_loss

-- `client_order_id in known_order_ids`
unfoldable pub is_known : Ident → List Ident → Bool
is_known cid [] = false
is_known cid (x ∷ xs) = x == cid || is_known cid xs

unfoldable pub validate_no_duplicate : Ident → List Ident → Result (Unit {0})
validate_no_duplicate cid known = raise_if (is_known cid known) duplicate_order_id

unfoldable pub validate_rate_limit : ℤ → Result (Unit {0})
validate_rate_limit remaining_budget = raise_if (leb_ℤ remaining_budget (pos 0)) rate_limit

-- What the engine fetches before it runs the chain.
pub record RiskInputs : Type 0 where
  pub instrument_spec : Option InstrumentSpec
  pub reference_price : Option Decimal
  pub known_order_ids : List Ident
  pub remaining_budget : ℤ
  pub config : RiskConfig

-- Steps 4 and 5: the client order id, which must be set and new, and the budget.
unfoldable pub check_identifier : Option Ident → RiskInputs → Result (Unit {0})
check_identifier none inputs = err invalid_symbol
check_identifier (some cid) inputs = do
  validate_no_duplicate cid inputs.known_order_ids
  validate_rate_limit inputs.remaining_budget

-- `validate_order_size` after step 1, which has made sure of the specification.
unfoldable pub check_size : UnifiedOrder → Option InstrumentSpec → RiskConfig → Result (Unit {0})
check_size order none config = err invalid_symbol
check_size order (some spec) config = validate_order_size order spec config

unfoldable pub run_risk_checks : UnifiedOrder → RiskInputs → Result (Unit {0})
run_risk_checks order inputs = do
  validate_symbol_validity inputs.instrument_spec
  check_size order inputs.instrument_spec inputs.config
  validate_price_sanity order inputs.reference_price inputs.config
  check_identifier order.client_order_id inputs

-- What a test unfolds to run the chain.
unfoldable pub risk_checks : Unit {0}
unfolding run_risk_checks validate_symbol_validity check_size check_identifier validate_no_duplicate
    validate_rate_limit validate_order_size qty_tick check_tick check_notional validate_price_sanity
    check_attached check_price_deviation deviation is_known
risk_checks = tt
