-- ===== src/Store.antt =====
-- The order tables of `state/store.py`: the current orders, the history of their snapshots, and the
-- audit trail. A table is what its SQL statements make of it; the database itself does not fail.
use unified_trading_executio.Base.{
  Bool, false, ◌||◌, Option, none, some, List, [], ◌∷◌, ◌++◌, if◌then◌else◌, Dict, lookup, insert,
  ℕ_key, ◌==◌, Result, ok, integrity_error, raise_if, ◌>>◌,
}
use unified_trading_executio.Decimal.{Decimal, pos, eqb_ℤ}
use unified_trading_executio.Types.{Ident, DateTime, OrderStatus, TpSlAttachment, OrderRecord}

-- What every event carries.
pub record Stamp : Type 0 where
  pub event_id : Ident
  pub timestamp : DateTime
  pub adapter_name : Ident
  pub account_id : Ident
  pub correlation_id : Ident

-- The type of an audit event with its payload.
pub data AuditPayload : Type 0 where
  placed :
      (client_order_id : Ident) → (platform_order_id : Option Ident) → OrderStatus → AuditPayload
  modified cancelled : (client_order_id : Ident) → AuditPayload

pub record AuditEvent : Type 0 where
  pub stamp : Stamp
  pub payload : AuditPayload

pub record StateStore : Type 0 where
  pub orders : Dict Ident OrderRecord
  pub order_history : List OrderRecord
  pub audit_events : List AuditEvent

-- `str(v) if v else None`, and back: a zero is lost.
unfoldable pub stored_price : Option Decimal → Option Decimal
stored_price none = none
stored_price (some v) = if eqb_ℤ v (pos 0) then none else some v

unfoldable pub stored_attachment : Option TpSlAttachment → Option TpSlAttachment
unfolding stored_price
stored_attachment none = none
stored_attachment (some a) = some (record a { limit_price = stored_price a.limit_price })

-- An order record as it is read back from its row.
unfoldable pub stored_order : OrderRecord → OrderRecord
unfolding stored_price stored_attachment
stored_order r = record r {
  price = stored_price r.price;
  stop_price = stored_price r.stop_price;
  take_profit = stored_attachment r.take_profit;
  stop_loss = stored_attachment r.stop_loss;
  average_fill_price = stored_price r.average_fill_price;
}

-- `INSERT OR REPLACE INTO orders`, and a row of the history.
unfoldable pub upsert_order : OrderRecord → StateStore → StateStore
upsert_order r s = record s {
  orders = insert r.client_order_id (stored_order r) s.orders;
  order_history = s.order_history ++ stored_order r ∷ [];
}

unfoldable pub get_order : Ident → StateStore → Option OrderRecord
get_order cid s = lookup cid s.orders

-- Whether the trail has an event with the id.
unfoldable pub has_event : Ident → List AuditEvent → Bool
has_event id [] = false
has_event id (a ∷ rest) = a.stamp.event_id == id || has_event id rest

-- An event id that the trail has already is rejected.
unfoldable pub write_audit_event : AuditEvent → StateStore → Result StateStore
unfolding has_event
write_audit_event a s = do
  raise_if (has_event a.stamp.event_id s.audit_events) integrity_error
  ok (record s { audit_events = s.audit_events ++ a ∷ [] })
