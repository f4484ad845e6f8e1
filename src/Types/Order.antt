-- ===== src/Types/Order.antt =====
-- `types/order.py`: order requests, modifications, results, and the records of the store.
use unified_trading_executio.Base.{
  ℕ, Bool, true, false, ◌&&◌, not, Option, none, some, is_some, Result, ok, err, value_error,
  raise_if, check_some, ◌>>◌, leb,
}
use unified_trading_executio.Decimal.{pos, Decimal, leb_ℤ}
use unified_trading_executio.Types.Enums.{
  OrderType, OrderSide, TimeInForce, OrderStatus, FillReason, FillEntry,
}
use unified_trading_executio.Types.Instruments.{Instrument}
use unified_trading_executio.Types.Market.{DateTime}

-- An identifier that is compared and never read.
abbrev pub Ident : Type 0
Ident = ℕ

pub record TpSlAttachment : Type 0 where
  pub trigger_price : Decimal
  pub limit_price : Option Decimal

-- `if value <= 0: raise ValueError`
abbrev pub check_positive : Decimal → Result (Unit {0})
check_positive v = raise_if (leb_ℤ v (pos 0)) value_error

-- `TpSlAttachment.__post_init__`
unfoldable pub check_attachment : TpSlAttachment → Result (Unit {0})
check_attachment a = check_positive a.trigger_price >> check_some a.limit_price check_positive

pub record UnifiedOrder : Type 0 where
  pub instrument : Instrument
  pub order_type : OrderType
  pub side : OrderSide
  pub quantity : Decimal
  pub time_in_force : TimeInForce
  pub client_order_id : Option Ident
  pub price : Option Decimal
  pub stop_price : Option Decimal
  pub reduce_only : Bool
  pub client_tag : Option Ident
  pub take_profit : Option TpSlAttachment
  pub stop_loss : Option TpSlAttachment
  pub position_id : Option Ident
  pub expire_at : Option DateTime

unfoldable pub needs_price : OrderType → Bool
needs_price OrderType.limit = true
needs_price OrderType.stop_limit = true
needs_price _ = false

unfoldable pub needs_stop_price : OrderType → Bool
needs_stop_price OrderType.stop = true
needs_stop_price OrderType.stop_limit = true
needs_stop_price _ = false

unfoldable pub is_gtd : TimeInForce → Bool
is_gtd TimeInForce.gtd = true
is_gtd _ = false

-- The checks on `expire_at` of a GTD order, at the time `now`.
abbrev pub check_expiry : (now : ℕ) → Option DateTime → Result (Unit {0})
check_expiry now none = err value_error
check_expiry now (some t) = do
  raise_if (not t.aware) value_error
  raise_if (leb t.instant now) value_error

abbrev pub when : Bool → Result (Unit {0}) → Result (Unit {0})
when true r = r
when false _ = ok tt

-- `UnifiedOrder.__post_init__` at the time `now`, on fields that are decimals already.
unfoldable pub check_order : (now : ℕ) → UnifiedOrder → Result (Unit {0})
unfolding needs_price needs_stop_price is_gtd
check_order now o = do
  raise_if (needs_price o.order_type && not (is_some o.price)) value_error
  raise_if (needs_stop_price o.order_type && not (is_some o.stop_price)) value_error
  check_positive o.quantity
  check_some o.price check_positive
  check_some o.stop_price check_positive
  when (is_gtd o.time_in_force) (check_expiry now o.expire_at)

pub record OrderModification : Type 0 where
  pub client_order_id : Ident
  pub price : Option Decimal
  pub stop_price : Option Decimal
  pub quantity : Option Decimal
  pub take_profit : Option TpSlAttachment
  pub stop_loss : Option TpSlAttachment

-- `OrderModification.__post_init__`
unfoldable pub check_modification : OrderModification → Result (Unit {0})
check_modification m =
    raise_if
      (not (is_some m.price)
        && not (is_some m.stop_price)
        && not (is_some m.quantity)
        && not (is_some m.take_profit)
        && not (is_some m.stop_loss))
      value_error

pub record OrderResult : Type 0 where
  pub client_order_id : Ident
  pub platform_order_id : Option Ident
  pub status : OrderStatus
  pub filled_quantity : Decimal
  pub average_fill_price : Option Decimal
  pub created_at : DateTime
  pub updated_at : DateTime

-- `OrderResult.__post_init__`
unfoldable pub check_result : OrderResult → Result (Unit {0})
check_result r = do
  raise_if (not r.created_at.aware) value_error
  raise_if (not r.updated_at.aware) value_error

pub record OrderRecord : Type 0 where
  pub instrument : Instrument
  pub order_type : OrderType
  pub side : OrderSide
  pub quantity : Decimal
  pub time_in_force : TimeInForce
  pub client_order_id : Ident
  pub price : Option Decimal
  pub stop_price : Option Decimal
  pub reduce_only : Bool
  pub client_tag : Option Ident
  pub take_profit : Option TpSlAttachment
  pub stop_loss : Option TpSlAttachment
  pub platform_order_id : Option Ident
  pub status : OrderStatus
  pub filled_quantity : Decimal
  pub average_fill_price : Option Decimal
  pub correlation_id : Ident
  pub created_at : DateTime
  pub updated_at : DateTime
  pub expire_at : Option DateTime

abbrev pub check_aware : DateTime → Result (Unit {0})
check_aware t = raise_if (not t.aware) value_error

-- `OrderRecord.__post_init__`
unfoldable pub check_record : OrderRecord → Result (Unit {0})
check_record r = check_some r.expire_at check_aware

pub record FillRecord : Type 0 where
  pub client_order_id : Ident
  pub platform_fill_id : Ident
  pub instrument : Instrument
  pub fill_quantity : Decimal
  pub fill_price : Decimal
  pub fill_timestamp : DateTime
  pub fee_currency : Option Ident
  pub fee_amount : Option Decimal
  pub correlation_id : Ident
  pub position_id : Option Ident
  pub reason : Option FillReason
  pub entry : Option FillEntry

-- `FillRecord.__post_init__`
unfoldable pub check_fill : FillRecord → Result (Unit {0})
check_fill f =
    check_aware f.fill_timestamp >> check_positive f.fill_quantity >> check_positive f.fill_price
