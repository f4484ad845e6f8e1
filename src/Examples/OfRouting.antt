-- ===== src/Examples/OfRouting.antt =====
-- A request that leaves the mode to a platform without trailing stops of its own.
use unified_trading_executio.Base.{◌≡◌, ◌↔◌, true, false, none, some, ok}
use unified_trading_executio.Trailing.{
  auto, synthetic, TrailingBasis, TrailingRequest, RoutingReason, resolve_routing,
}
use unified_trading_executio.Trailing.Blockers.{IsNative, IsSynthetic}
use unified_trading_executio.Trailing.Routes.{IsChosen, resolve_routing_iff}
use unified_trading_executio.Examples.Samples.{pair, five_percent}
use unified_trading_executio.Examples.Trails.{levels, no_trailing, tickers}

abbrev trail_request : TrailingRequest
trail_request = record {
  instrument = pair;
  spec = five_percent;
  position_id = none;
  mode = auto;
  take_over_existing_protection = false;
}

resolve_routing_iff_example :
    ((reason : RoutingReason) × (resolve_routing trail_request levels no_trailing tickers
        ≡ ok (synthetic, reason)))
    ↔ (((b : TrailingBasis) → five_percent.basis ≡ some b → true ≡ true)
        × IsChosen auto synthetic
            (IsNative five_percent no_trailing levels tickers)
            (IsSynthetic five_percent levels tickers))
resolve_routing_iff_example = resolve_routing_iff trail_request levels no_trailing tickers synthetic
