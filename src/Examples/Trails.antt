-- ===== src/Examples/Trails.antt =====
-- The sample data of the examples on the trailing manager: a platform, and one trailing stop.
use unified_trading_executio.Base.{
  err, not_implemented, ◌+◌, ℕ, true, false, none, some, List, [], ◌∷◌, ok,
}
use unified_trading_executio.Decimal.{pos}
use unified_trading_executio.Types.{buy, DateTime, Ticker, Position}
use unified_trading_executio.Halt.{fresh_machine}
use unified_trading_executio.Trailing.Manager.Stuck.{Signal, atr_computed, ticker_failed}
use unified_trading_executio.Trailing.{
  TrailingOffsetType, h1, degraded, atr_error, synthetic, last, armed, TrailingState,
  PositionProtectionCapability, Reason, TrailingCapability, MarketDataCapability, TrailingRequest,
}
use unified_trading_executio.Trailing.Manager.{Venue, TrailingManager, attachment}
use unified_trading_executio.Trailing.Manager.Runs.{
  Move, ticker, ticker_failure, integrity_check, cancellation,
}
use unified_trading_executio.Examples.Samples.{
  dec, pair, pair_spec, five_percent, halt_config, worker_config,
}

abbrev pub at : ℕ → DateTime
at n = record { instant = n; aware = true }

abbrev pub levels : PositionProtectionCapability
levels = record {
  supported = true;
  can_set_stop = true;
  can_set_take_profit = true;
  can_clear_stop = true;
  can_clear_take_profit = true;
  preserves_unmentioned_side = true;
  trigger_bases = λ b. true;
  min_reprice_interval_seconds = dec 1;
  reprice_gap = true;
}

abbrev pub no_trailing : TrailingCapability
no_trailing = record {
  supported = false;
  offset_types = λ o. false;
  bases = λ b. false;
  activations = λ a. false;
  supports_step = false;
  supports_initial_stop = false;
  supports_take_profit = false;
  position_scoped = false;
  min_reprice_interval_seconds = pos 0;
}

abbrev pub tickers : MarketDataCapability
tickers = record {
  ticker_bases = λ b. true;
  min_ticker_interval_seconds = dec 1;
  candle_timeframes = λ t. false;
  streaming_ticker = false;
}

abbrev pub at_120 : Ticker
at_120 = record { bid = none; ask = none; last = some (dec 120); mark = none }

-- A platform that takes every change, and has a stop at 114.
abbrev pub venue : Venue
venue = record {
  is_connected = true;
  protection_capability = λ i. levels;
  instrument_spec = λ calls i. ok pair_spec;
  protection =
      λ calls c. ok (some (record { take_profit = none; stop_loss = attachment (some (dec 114)) }));
  change = λ calls c. ok tt;
  trailing_capability = λ i. no_trailing;
  market_data_capability = λ i. tickers;
  ticker = λ calls i. ok (some at_120);
  candles = λ calls c. ok [];
  native_trail = λ calls c. ok none;
  placed_trail = λ calls c. err not_implemented;
  budget_left = λ calls. true;
  clock = λ n. at n;
  ids = λ n. n + 50;
  halt = fresh_machine halt_config;
  config = worker_config;
}

-- A long position with its stop at 95.
abbrev pub long_trail : TrailingState
long_trail = record {
  trailing_id = 1;
  instrument = pair;
  position_id = 40;
  mode = synthetic;
  phase = armed;
  spec = five_percent;
  side = buy;
  entry_price = dec 100;
  quantity = dec 2;
  created_at = at 0;
  updated_at = at 0;
  position_opened_at = none;
  routing_reason = none;
  resolved_basis = some last;
  protection_trigger_basis = some last;
  current_stop = some (dec 95);
  current_take_profit = none;
  stop_owned = true;
  take_profit_owned = false;
  previous_stop_loss = none;
  previous_take_profit = none;
  best_basis = some (dec 100);
  resolved_activation_price = none;
  activated = true;
  atr_value = none;
  atr_as_of = none;
  native_id = none;
  last_reprice_at = none;
  reprice_count = 0;
  last_error = none;
  failure_count = 0;
}

abbrev pub manager : TrailingManager
manager = record {
  states = (1, long_trail) ∷ [];
  fetch_failures = [];
  atr_failures = [];
  instrument_specs = [];
  calls = [];
  log = [];
  readings = 0;
  rehydrated = some true;
}

abbrev pub long_leg : Position
long_leg = record {
  instrument = pair;
  quantity = dec 2;
  average_entry_price = dec 100;
  updated_at = at 0;
  position_id = some 40;
  opened_at = none;
}

-- A request for a synthetic trailing stop that replaces the levels of the position.
abbrev pub take_over : TrailingRequest
take_over = record {
  instrument = pair;
  spec = five_percent;
  position_id = some 40;
  mode = synthetic;
  take_over_existing_protection = true;
}

abbrev pub moves : List Move
moves =
    ticker 1 at_120
    ∷ ticker_failure 1 (Reason.given 5)
    ∷ integrity_check (λ i. []) 1
    ∷ cancellation 1 true none
    ∷ []

-- A trailing stop at a distance of one ATR, of which too many refreshes failed.
abbrev pub stale_trail : TrailingState
stale_trail = record long_trail {
  spec = record five_percent {
    offset_type = TrailingOffsetType.atr;
    atr_period = some 14;
    atr_timeframe = some h1;
  };
  phase = degraded;
  atr_value = some (dec 6);
  last_error = some (atr_error (Reason.given 5));
}

abbrev pub signals : List Signal
signals = atr_computed (dec 6) (at 9) ∷ ticker_failed (Reason.given 5) ∷ []
