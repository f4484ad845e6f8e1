-- ===== src/Examples/Samples.antt =====
-- The sample data of the examples: a pair, its rules, a limit order, a trailing stop, candles.
use unified_trading_executio.Base.{ℕ, ◌*◌, ◌^◌, ◌+◌, true, false, none, some, List, [], ◌∷◌}
use unified_trading_executio.Decimal.{pos, Decimal}
use unified_trading_executio.Types.{
  OrderStatus, OrderRecord, Text, Instrument, InstrumentSpec, AssetClass, OrderType, buy,
  TimeInForce, UnifiedOrder, TpSlAttachment, Candle,
}
use unified_trading_executio.Risk.{RiskConfig, RiskInputs}
use unified_trading_executio.Halt.{HaltConfig}
use unified_trading_executio.Types.{manual}
use unified_trading_executio.Trailing.{
  TrailingSpec, TrailingConfig, TrailingOffsetType, immediate, WorkerState,
}

-- `Decimal(n)`
abbrev pub dec : ℕ → Decimal
dec n = pos (n * 10 ^ 28)

abbrev pub btc : Text
btc = 66 ∷ 84 ∷ 67 ∷ []

abbrev pub usd : Text
usd = 85 ∷ 83 ∷ 68 ∷ []

abbrev pub pair : Instrument
pair = record {
  identity = record {
    symbol = btc;
    asset_class = AssetClass.spot;
    quote_currency = some usd;
    exchange = none;
    currency = none;
    expiry = none;
    strike = none;
    option_right = none;
    multiplier = none;
  };
  platform_symbol = none;
}

abbrev pub pair_spec : InstrumentSpec
pair_spec = record {
  tick_size = dec 1;
  lot_size = dec 1;
  min_qty = dec 1;
  max_qty = dec 100;
  min_notional = dec 10;
  price_precision = 0;
  qty_precision = 0;
  max_leverage = none;
  min_stop_distance = none;
}

abbrev pub bracket : TpSlAttachment
bracket = record { trigger_price = dec 110; limit_price = some (dec 109) }

-- A limit order to buy five at a price of one hundred.
abbrev pub limit_order : UnifiedOrder
limit_order = record {
  instrument = pair;
  order_type = OrderType.limit;
  side = buy;
  quantity = dec 5;
  time_in_force = TimeInForce.gtc;
  client_order_id = some 7;
  price = some (dec 100);
  stop_price = none;
  reduce_only = false;
  client_tag = none;
  take_profit = some bracket;
  stop_loss = none;
  position_id = none;
  expire_at = none;
}

abbrev pub risk_config : RiskConfig
risk_config = record {
  max_order_size = some (dec 50);
  max_order_notional = none;
  per_instrument_max_size = (pair.identity, dec 20) ∷ [];
  per_instrument_max_notional = [];
  max_price_deviation_pct = dec 20;
  rate_limit_budget_override = none;
}

abbrev pub risk_inputs : RiskInputs
risk_inputs = record {
  instrument_spec = some pair_spec;
  reference_price = some (dec 101);
  known_order_ids = 3 ∷ 4 ∷ [];
  remaining_budget = pos 12;
  config = risk_config;
}

abbrev pub halt_config : HaltConfig
halt_config = record {
  auto_halt_enabled = true;
  closing_orders_permitted = true;
  clear_mode = manual;
}

-- A trailing stop five percent behind the best basis.
abbrev pub five_percent : TrailingSpec
five_percent = record {
  offset_type = TrailingOffsetType.percent;
  offset = dec 5;
  basis = none;
  activation = immediate;
  activation_price = none;
  activation_profit_percent = none;
  initial_stop = none;
  take_profit = none;
  step = some (dec 1);
  atr_period = none;
  atr_timeframe = none;
}

abbrev pub candle : (at opening high low close : ℕ) → Candle
candle at opening high low close = record {
  open_time = record { instant = at; aware = true };
  close_time = record { instant = at + 60; aware = true };
  opening = pos opening;
  high = pos high;
  low = pos low;
  close = pos close;
}

abbrev pub candles : List Candle
candles =
    candle 0 10 14 8 12
    ∷ candle 60 12 15 11 13
    ∷ candle 120 13 17 12 16
    ∷ candle 180 16 18 13 14
    ∷ []

abbrev pub worker_config : TrailingConfig
worker_config = record {
  poll_interval_seconds = dec 2;
  max_concurrent_fetches = pos 4;
  fetch_failure_threshold = pos 3;
  protection_failure_threshold = pos 3;
  rearm_on_reconnect = true;
  candle_settle_seconds = dec 1;
  atr_stale_after_candles = pos 3;
  publish_ticker_events = false;
}

-- A worker that has polled the pair once, without an error.
abbrev pub worker : WorkerState
worker = record {
  last_fetch = (pair.identity, dec 10) ∷ [];
  backoff_until = [];
  backoff_attempts = [];
}

-- The limit order as it is stored, without its take profit, and with a time in force.
abbrev pub row : TimeInForce → OrderRecord
row lifetime = record {
  instrument = pair;
  order_type = limit_order.order_type;
  side = limit_order.side;
  quantity = dec 5;
  time_in_force = lifetime;
  client_order_id = 7;
  price = some (dec 100);
  stop_price = none;
  reduce_only = false;
  client_tag = none;
  take_profit = none;
  stop_loss = none;
  platform_order_id = some 70;
  status = OrderStatus.opened;
  filled_quantity = pos 0;
  average_fill_price = none;
  correlation_id = 1000;
  created_at = record { instant = 5; aware = true };
  updated_at = record { instant = 5; aware = true };
  expire_at = none;
}
