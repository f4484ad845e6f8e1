-- ===== src/Trailing/Routing.antt =====
-- `trailing/manager.py`: which execution mode can express a request, from what the adapter declares
-- (`adapter/__init__.py`). A frozenset of an enumeration is its membership test.
use unified_trading_executio.Base.{
  Bool, true, false, not, ◌&&◌, ◌||◌, Option, none, some, is_some, List, [], ◌∷◌, ◌++◌, is_empty,
  Result, ok, err, trailing_not_supported, raise_if, if◌then◌else◌, ◌>>◌,
}
use unified_trading_executio.Decimal.{Decimal}
use unified_trading_executio.Types.{Ident, Instrument, OrderSide}
use unified_trading_executio.Trailing.Types.{
  Blocker, native_unsupported, native_unsupported_offset_type, native_unsupported_atr,
  native_unsupported_basis, native_unsupported_activation, native_unsupported_step,
  native_unsupported_initial_stop, native_unsupported_take_profit, native_unsupported_atr_data,
  synthetic_unsupported_protection, synthetic_unsupported_stop, synthetic_unsupported_merge,
  synthetic_unsupported_ticker, synthetic_unsupported_take_profit, synthetic_unsupported_atr_data,
  RoutingReason, native_exact, synthetic_mode_requested, fallback, TrailingMode, auto, native,
  synthetic, TrailingOffsetType, TrailingBasis, last, mark, mid, bid, ask, TrailingActivation,
  profit_percent, CandleTimeframe, TrailingSpec, uses_atr, is_atr, is_atr_offset,
}

pub record PositionProtectionCapability : Type 0 where
  pub supported : Bool
  pub can_set_stop : Bool
  pub can_set_take_profit : Bool
  pub can_clear_stop : Bool
  pub can_clear_take_profit : Bool
  pub preserves_unmentioned_side : Bool
  pub trigger_bases : TrailingBasis → Bool
  pub min_reprice_interval_seconds : Decimal
  pub reprice_gap : Bool

pub record TrailingCapability : Type 0 where
  pub supported : Bool
  pub offset_types : TrailingOffsetType → Bool
  pub bases : TrailingBasis → Bool
  pub activations : TrailingActivation → Bool
  pub supports_step : Bool
  pub supports_initial_stop : Bool
  pub supports_take_profit : Bool
  pub position_scoped : Bool
  pub min_reprice_interval_seconds : Decimal

pub record MarketDataCapability : Type 0 where
  pub ticker_bases : TrailingBasis → Bool
  pub min_ticker_interval_seconds : Decimal
  pub candle_timeframes : CandleTimeframe → Bool
  pub streaming_ticker : Bool

pub record TrailingRequest : Type 0 where
  pub instrument : Instrument
  pub spec : TrailingSpec
  pub position_id : Option Ident
  pub mode : TrailingMode
  pub take_over_existing_protection : Bool

pub record NativeTrailingRequest : Type 0 where
  pub instrument : Instrument
  pub position_id : Ident
  pub side : OrderSide
  pub quantity : Decimal
  pub offset : Decimal
  pub offset_type : TrailingOffsetType
  pub basis : Option TrailingBasis
  pub activation_price : Option Decimal
  pub client_id : Ident

pub record NativeTrailingResult : Type 0 where
  pub native_id : Ident
  pub confirmed_offset : Option Decimal
  pub current_stop : Option Decimal
  pub activated : Bool
  pub position_scoped : Bool

-- `if condition: blockers.append(code)`
abbrev pub block : Bool → Blocker → List Blocker
block condition code = if condition then code ∷ [] else []

-- `item is not None and item not in collection`
abbrev pub is_outside {ℓ} : {A : Type ℓ} → Option A → (A → Bool) → Bool
is_outside none s = false
is_outside (some a) s = not (s a)

-- `item not in collection`, for a collection that does not hold `None`.
abbrev pub is_missing {ℓ} : {A : Type ℓ} → Option A → (A → Bool) → Bool
is_missing none s = true
is_missing (some a) s = not (s a)

-- The activation that a platform needs for one of a specification.
unfoldable pub native_activation : TrailingActivation → TrailingActivation
native_activation profit_percent = TrailingActivation.price
native_activation a = a

-- `_native_blockers`
unfoldable pub native_blockers :
    TrailingSpec
    → TrailingCapability
    → PositionProtectionCapability
    → MarketDataCapability
    → List Blocker
native_blockers spec n protection market =
    if not n.supported
    then native_unsupported ∷ []
    else (if is_atr_offset spec.offset_type
        then native_unsupported_atr ∷ []
        else block (not (n.offset_types spec.offset_type)) native_unsupported_offset_type)
      ++ (block (is_outside spec.basis n.bases) native_unsupported_basis
          ++ (block (not (n.activations (native_activation spec.activation)))
                native_unsupported_activation
              ++ (block (is_some spec.step && not n.supports_step) native_unsupported_step
                  ++ (block
                        (is_some spec.initial_stop
                          && (not n.supports_initial_stop || is_atr spec.initial_stop))
                        native_unsupported_initial_stop
                      ++ (block (is_some spec.take_profit && not protection.can_set_take_profit)
                            native_unsupported_take_profit
                          ++ block
                              (is_atr spec.take_profit
                                && is_missing spec.atr_timeframe market.candle_timeframes)
                              native_unsupported_atr_data)))))

-- `not bases`
unfoldable pub no_basis : (TrailingBasis → Bool) → Bool
no_basis s = not (s last || (s mark || (s mid || (s bid || s ask))))

-- `_synthetic_blockers`
unfoldable pub synthetic_blockers :
    TrailingSpec → PositionProtectionCapability → MarketDataCapability → List Blocker
synthetic_blockers spec protection market =
    (if not protection.supported
      then synthetic_unsupported_protection ∷ []
      else if not protection.can_set_stop
      then synthetic_unsupported_stop ∷ []
      else block (not protection.preserves_unmentioned_side) synthetic_unsupported_merge)
    ++ (block (no_basis market.ticker_bases) synthetic_unsupported_ticker
        ++ (block (is_some spec.take_profit && not protection.can_set_take_profit)
              synthetic_unsupported_take_profit
            ++ block (uses_atr spec && is_missing spec.atr_timeframe market.candle_timeframes)
                synthetic_unsupported_atr_data))

-- What `AUTO` chooses.
unfoldable pub prefer_native :
    (native_bl synthetic_bl : List Blocker) → Result (TrailingMode × RoutingReason)
prefer_native [] synthetic_bl = ok (native, native_exact)
prefer_native (b ∷ bs) [] = ok (synthetic, fallback b)
prefer_native (b ∷ bs) (c ∷ cs) = err trailing_not_supported

unfoldable pub route :
    TrailingMode → (native_bl synthetic_bl : List Blocker) → Result (TrailingMode × RoutingReason)
route native ns ss = if is_empty ns then ok (native, native_exact) else err trailing_not_supported
route synthetic ns ss =
    if is_empty ss then ok (synthetic, synthetic_mode_requested) else err trailing_not_supported
route auto ns ss = prefer_native ns ss

-- `resolve_routing`
unfoldable pub resolve_routing :
    TrailingRequest
    → PositionProtectionCapability
    → TrailingCapability
    → MarketDataCapability
    → Result (TrailingMode × RoutingReason)
resolve_routing r protection n market = do
  raise_if (is_outside r.spec.basis market.ticker_bases) trailing_not_supported
  route r.mode (native_blockers r.spec n protection market)
      (synthetic_blockers r.spec protection market)
