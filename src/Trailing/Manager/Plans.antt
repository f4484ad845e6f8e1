-- ===== src/Trailing/Manager/Plans.antt =====
-- What `_attach_synthetic` of `trailing/manager.py` knows before it writes.
use unified_trading_executio.Base.{
  ◌≡◌, refl, ap, ◌∙◌, ◌⊎◌, inl, inr, Bool, true, false, not, ◌&&◌, ◌||◌, Option, none, some,
  is_some, Result, ok, raise_if, ◌>>◌, Error, arith, subst, >>=-eq-ok, trailing_not_supported,
  trailing_state, invalid_order,
}
use unified_trading_executio.Decimal.{Decimal, pos, leb_ℤ, ◌<ℤ◌, leb_ℤ_iff, ltb_ℤ_iff}
use unified_trading_executio.Types.{Ident, Position, OrderSide, buy, sell, InstrumentSpec}
use unified_trading_executio.Trailing.{
  TrailingSpec, ProtectionLevel, synthetic, TrailingRequest, side_of, resolve_bases, basis_price,
  resolve_activation_price, is_activation_reached, first_stop, raw_stop, checked_stop, first_profit,
  quantize_stop, quantize_take_profit, take_profit_price, initial_stop, take_profit, is_valid_level,
  validate_level_direction, respects_min_stop_distance,
}
use unified_trading_executio.Trailing.Manager.{
  Venue, instrument_spec, load_atr, read_ticker, read_leg, required, check_existing, Protection,
  Plan, plan_synthetic,
}
use unified_trading_executio.Trailing.Manager.Writes.{spec-IsReading}
use unified_trading_executio.Trailing.Manager.AttachReads.{
  Yields, then-Yields, pure-Yields, give-Yields, load-IsReading, ticker-IsReading, leg-IsReading,
}

-- A price on the losing side of a position at another.
abbrev pub IsBehind : OrderSide → (price reference : Decimal) → Type 0
IsBehind buy p q = p <ℤ q
IsBehind sell p q = q <ℤ p

-- A stop that may be the first one.
pub record IsFirstStop (side : OrderSide) (basis : Decimal) (rules : InstrumentSpec)
    (stop : Decimal) : Type 0 where
  pub positive : pos 0 <ℤ stop
  pub behind : IsBehind side stop basis
  pub distant : respects_min_stop_distance side stop basis rules.min_stop_distance ≡ true

pub record IsFirstProfit (side : OrderSide) (entry price : Decimal) : Type 0 where
  pub positive : pos 0 <ℤ price
  pub ahead : IsBehind side entry price

raise_then {ℓ} :
    {A : Type ℓ} (b : Bool) (e : Error) (rest : Result A) {out : A}
    → (raise_if b e >> rest) ≡ ok out
    → (b ≡ false) × (rest ≡ ok out)
raise_then true e rest h = absurd (cc h)
raise_then false e rest h = (refl, h)

valid_stop :
    (side : OrderSide) (p q : Decimal)
    → is_valid_level side initial_stop p q ≡ true
    → IsBehind side p q
unfolding is_valid_level
valid_stop buy p q h = (ltb_ℤ_iff p q).0 h
valid_stop sell p q h = (ltb_ℤ_iff q p).0 h

valid_profit :
    (side : OrderSide) (p q : Decimal)
    → is_valid_level side take_profit p q ≡ true
    → IsBehind side q p
unfolding is_valid_level
valid_profit buy p q h = (ltb_ℤ_iff q p).0 h
valid_profit sell p q h = (ltb_ℤ_iff p q).0 h

above_zero : (p : Decimal) → leb_ℤ p (pos 0) ≡ false → pos 0 <ℤ p
above_zero p h = ground (arith, leb_ℤ_iff p (pos 0))

checked_stop-IsFirstStop :
    (side : OrderSide) (basis : Decimal) (rules : InstrumentSpec) (raw : Option Decimal)
    (stop : Decimal)
    → checked_stop side basis rules raw ≡ ok (some stop)
    → IsFirstStop side basis rules stop
unfolding checked_stop validate_level_direction
checked_stop-IsFirstStop side basis rules none stop h = absurd (cc h)
checked_stop-IsFirstStop side basis rules (some raw) stop h =
    let (rounded, _, h1) = >>=-eq-ok (quantize_stop raw rules.tick_size side) _ h in
    let (positive, h2) = raise_then (leb_ℤ rounded (pos 0)) _ _ h1 in
    let (valid, h3) =
      raise_then (not (is_valid_level side initial_stop rounded basis)) trailing_state _ h2 in
    let (distant, h4) =
      raise_then (not (respects_min_stop_distance side rounded basis rules.min_stop_distance))
        trailing_not_supported (ok (some rounded)) h3 in
    let same : rounded ≡ stop = cc h4 in
    subst (IsFirstStop side basis rules) same (record {
      positive = above_zero rounded positive;
      behind = valid_stop side rounded basis (ground (arith, valid));
      distant = ground (arith, distant);
    })

first_stop-IsFirstStop :
    (spec : TrailingSpec) (side : OrderSide) (entry basis : Decimal) (atr : Option Decimal)
    (rules : InstrumentSpec) (activated : Bool) (stop : Decimal)
    → first_stop spec side entry basis atr rules activated ≡ ok (some stop)
    → IsFirstStop side basis rules stop
unfolding first_stop
first_stop-IsFirstStop spec side entry basis atr rules activated stop h =
    let (raw, _, h1) =
      >>=-eq-ok (raw_stop spec side entry basis atr activated spec.initial_stop) _ h in
    checked_stop-IsFirstStop side basis rules raw stop h1

first_profit-IsFirstProfit :
    (side : OrderSide) (entry : Decimal) (atr : Option Decimal) (rules : InstrumentSpec)
    (level : Option ProtectionLevel) (price : Decimal)
    → first_profit side entry atr rules level ≡ ok (some price)
    → IsFirstProfit side entry price
unfolding first_profit validate_level_direction
first_profit-IsFirstProfit side entry atr rules none price h = absurd (cc h)
first_profit-IsFirstProfit side entry atr rules (some level) price h =
    let (raw, _, h1) = >>=-eq-ok (take_profit_price level side entry atr) _ h in
    let (rounded, _, h2) = >>=-eq-ok (quantize_take_profit raw rules.tick_size side) _ h1 in
    let (positive, h3) = raise_then (leb_ℤ rounded (pos 0)) _ _ h2 in
    let (valid, h4) =
      raise_then (not (is_valid_level side take_profit rounded entry)) trailing_state
        (ok (some rounded)) h3 in
    let same : rounded ≡ price = cc h4 in
    subst (IsFirstProfit side entry) same (record {
      positive = above_zero rounded positive;
      ahead = valid_profit side rounded entry (ground (arith, valid));
    })

-- Levels that the position has are replaced only if the request takes them over.
abbrev pub IsFree : (take_over : Bool) → (profit : Option Decimal) → Protection → Type 0
IsFree take_over profit p =
    (take_over ≡ true) ⊎ ((p.stop_loss ≡ none) × ((p.take_profit ≡ none) ⊎ (profit ≡ none)))

none_of {ℓ} : {A : Type ℓ} (o : Option A) → is_some o ≡ false → o ≡ none
none_of none h = refl
none_of (some a) h = absurd (cc h)

free_of :
    (stop held profit : Bool)
    → raise_if (stop || (held && profit)) trailing_state ≡ ok tt
    → (stop ≡ false) × ((held ≡ false) ⊎ (profit ≡ false))
free_of true held profit h = absurd (cc h)
free_of false false profit h = (refl, inl refl)
free_of false true false h = (refl, inr refl)
free_of false true true h = absurd (cc h)

check_existing-IsFree :
    (take_over : Bool) (profit : Option Decimal) (p : Protection)
    → check_existing take_over profit p ≡ ok tt
    → IsFree take_over profit p
unfolding check_existing
check_existing-IsFree true profit p h = inl refl
check_existing-IsFree false profit p h =
    let (stop, other) = free_of (is_some p.stop_loss) (is_some p.take_profit) (is_some profit) h in
    inr (
      none_of p.stop_loss stop,
      elim other [
        | inl held ↦ inl (none_of p.take_profit held)
        | inr asked ↦ inr (none_of profit asked)
      ],
    )

-- What is planned keeps to the rules.
pub record IsSound (r : TrailingRequest) (leg : Position) (p : Plan) : Type 0 where
  pub stop : (x : Decimal) → p.stop ≡ some x → IsFirstStop (side_of leg.quantity) p.basis p.rules x
  pub profit :
      (x : Decimal)
      → p.take_profit ≡ some x
      → IsFirstProfit (side_of leg.quantity) leg.average_entry_price x
  pub free : IsFree r.take_over_existing_protection p.take_profit p.previous

pub plan_synthetic-IsSound :
    (v : Venue) (r : TrailingRequest) (leg : Position) (position_id : Ident)
    → Yields (IsSound r leg) (plan_synthetic v r leg position_id)
unfolding plan_synthetic
plan_synthetic-IsSound v r leg position_id =
    let side = side_of leg.quantity in
    let entry = leg.average_entry_price in
    let bases =
      resolve_bases r.spec synthetic (v.protection_capability r.instrument)
        (v.market_data_capability r.instrument) side in
    then-Yields (instrument_spec v r.instrument) _ (spec-IsReading v r.instrument) (λ rules.
      then-Yields (load_atr v r.spec r.instrument) _ (load-IsReading v r.spec r.instrument) (λ atr.
        pure-Yields (required trailing_not_supported bases.0) _ (λ sampled _.
          then-Yields (read_ticker v r.instrument) _ (ticker-IsReading v r.instrument) (λ answer.
            pure-Yields (required trailing_not_supported answer) _ (λ ticker _.
              pure-Yields (required trailing_not_supported (basis_price ticker sampled)) _
                (λ basis _.
                  pure-Yields (resolve_activation_price r.spec side entry) _ (λ activation _.
                    pure-Yields
                      (first_stop r.spec side entry basis atr rules
                        (is_activation_reached side basis activation))
                      _
                      (λ stop is_stop.
                        pure-Yields (first_profit side entry atr rules r.spec.take_profit) _
                          (λ profit is_profit.
                            then-Yields (read_leg v r.instrument position_id) _
                              (leg-IsReading v r.instrument position_id)
                              (λ existing.
                                pure-Yields (required invalid_order existing) _ (λ previous _.
                                  pure-Yields
                                    (check_existing r.take_over_existing_protection profit previous)
                                    _
                                    (λ _ free. give-Yields _ (record {
                                      stop = λ x e.
                                          first_stop-IsFirstStop _ _ _ _ _ _ _ x
                                            (is_stop ∙ ap ok e);
                                      profit = λ x e.
                                          first_profit-IsFirstProfit _ _ _ _ _ x
                                            (is_profit ∙ ap ok e);
                                      free = check_existing-IsFree _ _ _ free;
                                    })))))))))))))
