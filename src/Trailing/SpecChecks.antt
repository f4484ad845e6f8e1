-- ===== src/Trailing/SpecChecks.antt =====
-- What `TrailingSpec.__post_init__` of `trailing/types.py` accepts, and what it is enough for.
use unified_trading_executio.Base.{
  ℕ, ◌≤◌, ◌≡◌, refl, ◌↔◌, Bool, true, false, not, ◌&&◌, Option, none, some, ok, arith,
}
use unified_trading_executio.Decimal.{pos, Decimal, whole, ◌≤ℤ◌, ◌<ℤ◌}
use unified_trading_executio.Types.{OrderSide}
use unified_trading_executio.Trailing.{
  TrailingSpec, TrailingActivation, immediate, profit_percent, TrailingOffsetType, CandleTimeframe,
  TrailingPhase, is_active_phase, is_terminal_phase, check_spec, check_activation, check_atr,
  uses_atr, resolve_activation_price, is_percent_offset, is_open_percent,
  profit_percent_activation_price,
}

abbrev IsStep : Option Decimal → Type 0
IsStep none = Unit
IsStep (some v) = pos 0 ≤ℤ v

abbrev IsBelowHundred : TrailingOffsetType → Decimal → Type 0
IsBelowHundred TrailingOffsetType.percent v = v <ℤ whole 100
IsBelowHundred _ v = Unit

-- The activation has exactly the field that it needs, and that in its range.
abbrev FitsActivation : TrailingActivation → (target profit : Option Decimal) → Type 0
FitsActivation immediate t pct = (t ≡ none) × (pct ≡ none)
FitsActivation TrailingActivation.price t pct =
    (v : Decimal) × (t ≡ some v) × (pos 0 <ℤ v) × (pct ≡ none)
FitsActivation profit_percent t pct =
    (v : Decimal) × (pct ≡ some v) × (pos 0 <ℤ v) × (v <ℤ whole 100) × (t ≡ none)

-- The ATR parameters are there exactly if an ATR is used.
abbrev FitsAtr : (uses : Bool) → Option ℕ → Option CandleTimeframe → Type 0
FitsAtr true period timeframe =
    (p : ℕ) × (f : CandleTimeframe) × (period ≡ some p) × (timeframe ≡ some f) × (2 ≤ p)
FitsAtr false period timeframe = (period ≡ none) × (timeframe ≡ none)

pub record IsValidSpec (s : TrailingSpec) : Type 0 where
  pub positive : pos 0 <ℤ s.offset
  pub below_hundred : IsBelowHundred s.offset_type s.offset
  pub step_fits : IsStep s.step
  pub activation_fits : FitsActivation s.activation s.activation_price s.activation_profit_percent
  pub atr_fits : FitsAtr (uses_atr s) s.atr_period s.atr_timeframe

check_activation_iff :
    (a : TrailingActivation) (t pct : Option Decimal)
    → (check_activation a t pct ≡ ok tt) ↔ FitsActivation a t pct
unfolding check_activation
check_activation_iff immediate t pct = (λ h. ground arith, λ h. ground arith)
check_activation_iff TrailingActivation.price none pct = (λ h. cc, λ h. cc h.1)
check_activation_iff TrailingActivation.price (some v) pct =
    (λ h. (v, refl, ground arith, ground arith), λ h. ground arith)
check_activation_iff profit_percent t none = (λ h. cc, λ h. cc h.1)
check_activation_iff profit_percent t (some v) =
    (λ h. (v, refl, ground arith, ground arith, ground arith), λ h. ground arith)

check_atr_iff :
    (uses : Bool) (period : Option ℕ) (timeframe : Option CandleTimeframe)
    → (check_atr uses period timeframe ≡ ok tt) ↔ FitsAtr uses period timeframe
unfolding check_atr
check_atr_iff true period timeframe = (λ h. ground arith, λ h. ground arith)
check_atr_iff false period timeframe = (λ h. ground arith, λ h. ground arith)

percent_test_iff :
    (t : TrailingOffsetType) (v : Decimal)
    → pos 0 <ℤ v
    → ((is_percent_offset t && not (is_open_percent v)) ≡ false) ↔ IsBelowHundred t v
percent_test_iff TrailingOffsetType.percent v p = (λ h. ground arith, λ h. ground arith)
percent_test_iff _ v p = (λ h. tt, λ h. refl)

-- A specification passes its checks exactly when its offset is above zero, and below a hundred if
-- it is a percentage, its step is not negative, its activation has exactly the field that it needs,
-- in its range, and a period of at least two and a timeframe are there if and only if an ATR is
-- used.
pub check_spec_iff : (s : TrailingSpec) → (check_spec s ≡ ok tt) ↔ IsValidSpec s
unfolding check_spec
check_spec_iff s =
    let activation =
      check_activation_iff s.activation s.activation_price s.activation_profit_percent in
    let atr = check_atr_iff (uses_atr s) s.atr_period s.atr_timeframe in
    (
      λ h. ground (arith, activation.0, atr.0, (percent_test_iff s.offset_type s.offset)),
      λ h. ground (
        arith,
        activation.1 h.activation_fits,
        atr.1 h.atr_fits,
        (percent_test_iff s.offset_type s.offset h.positive).1 h.below_hundred,
      ),
    )

resolves :
    (s : TrailingSpec) (side : OrderSide) (entry_price : Decimal) (a : TrailingActivation)
    → s.activation ≡ a
    → FitsActivation a s.activation_price s.activation_profit_percent
    → (r : Option Decimal) × (resolve_activation_price s side entry_price ≡ ok r)
unfolding resolve_activation_price
resolves s side entry_price immediate e h = (none, rw e)
resolves s side entry_price TrailingActivation.price e (v, p, _, _) = (some v, rw (e, p))
resolves s side entry_price profit_percent e (v, p, _, _, _) =
    (some (profit_percent_activation_price entry_price side v), rw (e, p))

-- Every phase is either active or terminal, and none is both.
pub phase_partition : (p : TrailingPhase) → is_active_phase p ≡ not (is_terminal_phase p)
unfolding is_active_phase is_terminal_phase
phase_partition p = ground arith

-- The activation price of a specification that passes its checks can always be resolved.
pub resolve_activation_price_total :
    (s : TrailingSpec) (side : OrderSide) (entry_price : Decimal)
    → check_spec s ≡ ok tt
    → (r : Option Decimal) × (resolve_activation_price s side entry_price ≡ ok r)
resolve_activation_price_total s side entry_price h =
    resolves s side entry_price s.activation refl ((check_spec_iff s).0 h).activation_fits
