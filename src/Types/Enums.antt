-- ===== src/Types/Enums.antt =====
-- `types/enums.py`. A name that the language reserves has a longer one here: `opened` is OPEN, and
-- the entries of a fill are `entry_in` and so on.
use unified_trading_executio.Base.{Bool, true, false}

pub data OrderType : Type 0 where
  market limit stop stop_limit : OrderType

pub data OrderSide : Type 0 where
  buy sell : OrderSide

pub data TimeInForce : Type 0 where
  gtc ioc fok day gtd : TimeInForce

pub data OrderStatus : Type 0 where
  pending opened partially_filled filled cancelled rejected expired : OrderStatus

-- Membership in `LIVE_ORDER_STATUSES`.
unfoldable pub is_live_status : OrderStatus → Bool
is_live_status OrderStatus.pending = true
is_live_status OrderStatus.opened = true
is_live_status OrderStatus.partially_filled = true
is_live_status _ = false

pub data AssetClass : Type 0 where
  spot margin_fx cfd futures option stock bond fund : AssetClass

pub data OptionRight : Type 0 where
  call put : OptionRight

pub data HaltState : Type 0 where
  active halted : HaltState

pub data FillReason : Type 0 where
  client expert dealer stop_loss_hit take_profit_hit trailing_stop stop_out : FillReason
  rollover margin split unknown : FillReason

pub data FillEntry : Type 0 where
  entry_in entry_out in_out out_by entry_unknown : FillEntry

pub data HaltClearMode : Type 0 where
  automatic manual : HaltClearMode

abbrev pub is_buy : OrderSide → Bool
is_buy buy = true
is_buy sell = false
