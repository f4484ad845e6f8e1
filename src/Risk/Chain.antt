-- ===== src/Risk/Chain.antt =====
-- What the chain of validators in `risk/__init__.py` accepts, and which errors it raises.
use unified_trading_executio.Base.{
  ◌≡◌, refl, ◌↔◌, false, Option, none, some, List, [], ◌∷◌, ◌++◌, arith, All, All-append, All-split,
  >>=-eq-ok, Result, ok, check_some, seq_iff, ◌>>◌,
}
use unified_trading_executio.Decimal.{pos, Decimal, ◌≤ℤ◌, ◌<ℤ◌}
use unified_trading_executio.Types.{InstrumentSpec, Ident, TpSlAttachment, UnifiedOrder}
use unified_trading_executio.Risk.{
  RiskConfig, RiskInputs, deviation, check_price_deviation, check_attached, validate_price_sanity,
  is_known, run_risk_checks, check_size, check_identifier, validate_symbol_validity,
  validate_no_duplicate, validate_rate_limit,
}
use unified_trading_executio.Risk.Bounds.{IsSizeAllowed, validate_order_size_iff}

-- The deviation of the price is defined and at most `max_pct`.
pub record IsNear (reference max_pct price : Decimal) : Type 0 where
  pub value : Decimal
  pub defined : deviation price reference ≡ ok value
  pub small : value ≤ℤ max_pct

abbrev given : Option Decimal → List Decimal
given none = []
given (some p) = p ∷ []

abbrev attached : Option TpSlAttachment → List Decimal
attached none = []
attached (some a) = a.trigger_price ∷ given a.limit_price

-- Every price that an order names.
abbrev pub prices : UnifiedOrder → List Decimal
prices o = given o.price ++ (given o.stop_price ++ (attached o.take_profit ++ attached o.stop_loss))

-- A known reference price bounds every price of the order.
abbrev pub IsPriceSane : UnifiedOrder → Option Decimal → Decimal → Type 0
IsPriceSane o none max_pct = Unit
IsPriceSane o (some r) max_pct = All (IsNear r max_pct) (prices o)

module _ (r max : Decimal) where
  abbrev check : Decimal → Result (Unit {0})
  check p = check_price_deviation p r max

  abbrev Passes : Result (Unit {0}) → List Decimal → Type 0
  Passes m xs = (m ≡ ok tt) ↔ All (IsNear r max) xs

  Passes-append :
      (m k : Result (Unit {0})) (xs ys : List Decimal)
      → Passes m xs
      → Passes k ys
      → Passes (m >> k) (xs ++ ys)
  Passes-append m k xs ys p q =
      let both = seq_iff m k p q in
      (
        λ h. All-append (IsNear r max) xs ys (both.0 h).0 (both.0 h).1,
        λ h. both.1 (All-split (IsNear r max) xs ys h),
      )

  check-IsNear : (p : Decimal) → check p ≡ ok tt → IsNear r max p
  unfolding check_price_deviation
  check-IsNear p h =
      let (v, e, rest) = >>=-eq-ok (deviation p r) _ h in
      record { value = v; defined = e; small = ground arith }

  near_check : (p : Decimal) → IsNear r max p → check p ≡ ok tt
  unfolding check_price_deviation
  near_check p h = rw h.defined (ground arith)

  check-Passes : (p : Decimal) → Passes (check p) (p ∷ [])
  check-Passes p = (λ h. (check-IsNear p h, tt), λ h. near_check p h.0)

  given-Passes : (o : Option Decimal) → Passes (check_some o check) (given o)
  given-Passes none = (λ h. tt, λ h. refl)
  given-Passes (some p) = check-Passes p

  attached-Passes : (o : Option TpSlAttachment) → Passes (check_attached r max o) (attached o)
  unfolding check_attached
  attached-Passes none = (λ h. tt, λ h. refl)
  attached-Passes (some a) =
      Passes-append (check a.trigger_price) (check_some a.limit_price check) (a.trigger_price ∷ [])
        (given a.limit_price) (check-Passes a.trigger_price) (given-Passes a.limit_price)

-- With no reference price every order passes the price check; with one, an order passes exactly
-- when each of its prices, its take profit's and its stop loss's lies within the deviation.
pub validate_price_sanity_iff :
    (o : UnifiedOrder) (reference : Option Decimal) (config : RiskConfig)
    → (validate_price_sanity o reference config ≡ ok tt)
      ↔ IsPriceSane o reference config.max_price_deviation_pct
unfolding validate_price_sanity
validate_price_sanity_iff o none config = (λ h. tt, λ h. refl)
validate_price_sanity_iff o (some r) config =
    let max = config.max_price_deviation_pct in
    Passes-append r max _ _ (given o.price) _ (given-Passes r max o.price) (
      Passes-append r max _ _ (given o.stop_price) _ (given-Passes r max o.stop_price) (
        Passes-append r max _ _ (attached o.take_profit) _ (attached-Passes r max o.take_profit)
          (attached-Passes r max o.stop_loss)))

abbrev pub IsNew : Option Ident → List Ident → Type 0
IsNew none known = ⊥
IsNew (some cid) known = is_known cid known ≡ false

abbrev pub IsSized : UnifiedOrder → Option InstrumentSpec → RiskConfig → Type 0
IsSized o none config = ⊥
IsSized o (some spec) config = IsSizeAllowed o spec config

-- An order that every validator lets through.
pub record IsAcceptable (o : UnifiedOrder) (inputs : RiskInputs) : Type 0 where
  pub sized : IsSized o inputs.instrument_spec inputs.config
  pub sane : IsPriceSane o inputs.reference_price inputs.config.max_price_deviation_pct
  pub new : IsNew o.client_order_id inputs.known_order_ids
  pub affordable : pos 0 <ℤ inputs.remaining_budget

pub check_size_iff :
    (o : UnifiedOrder) (spec : Option InstrumentSpec) (config : RiskConfig)
    → ((validate_symbol_validity spec >> check_size o spec config) ≡ ok tt) ↔ IsSized o spec config
unfolding validate_symbol_validity check_size
check_size_iff o none config = (λ h. cc, λ h. absurd h)
check_size_iff o (some spec) config = validate_order_size_iff o spec config

check_identifier_iff :
    (cid : Option Ident) (inputs : RiskInputs)
    → (check_identifier cid inputs ≡ ok tt)
      ↔ (IsNew cid inputs.known_order_ids × (pos 0 <ℤ inputs.remaining_budget))
unfolding check_identifier validate_no_duplicate validate_rate_limit
check_identifier_iff none inputs = (λ h. cc, λ h. absurd h.0)
check_identifier_iff (some cid) inputs = (λ h. ground arith, λ h. ground arith)

-- The chain passes an order exactly when its instrument's rules are known and its size allowed by
-- them, its prices are sane, its client order id is set and new, and budget is left.
pub run_risk_checks_iff :
    (o : UnifiedOrder) (inputs : RiskInputs)
    → (run_risk_checks o inputs ≡ ok tt) ↔ IsAcceptable o inputs
unfolding run_risk_checks
run_risk_checks_iff o inputs =
    let size = check_size_iff o inputs.instrument_spec inputs.config in
    let sane = validate_price_sanity_iff o inputs.reference_price inputs.config in
    let id = check_identifier_iff o.client_order_id inputs in
    (
      λ h. ground (arith, size.0, sane.0, id.0),
      λ h. ground (arith, size.1 h.sized, sane.1 h.sane, id.1 (h.new, h.affordable)),
    )
