-- ===== src/Dispatch/Operations.antt =====
-- The three operations of `dispatch/__init__.py`. The id that placing gives to an order without one
-- is in the request; the source also writes it into the order of the caller.
use unified_trading_executio.Base.{
  not, Option, none, some, or_else, get_or, [], ◌∷◌, ◌++◌, Result, ok, err, raise_if,
  unsupported_order_type, order_not_found, instrument_halted,
}
use unified_trading_executio.Types.{
  Ident, UnifiedOrder, OrderModification, OrderResult, OrderRecord, OrderType, check_order,
  check_record,
}
use unified_trading_executio.Risk.{RiskInputs, run_risk_checks}
use unified_trading_executio.Halt.{HaltStateMachine, can_place_order}
use unified_trading_executio.Store.{
  Stamp, AuditEvent, AuditPayload, placed, modified, cancelled, StateStore, upsert_order, get_order,
  write_audit_event,
}
use unified_trading_executio.Dispatch.Events.{
  place_order, modify_order, cancel_order, Platform, Event, order_placed, order_modified,
  order_cancelled, Desk,
}
use unified_trading_executio.Dispatch.Actions.{Action, ◌>>=◌, ◌>>◌, pure, update, draw, stamp, ask}

-- `if order.client_order_id is None: order.client_order_id = _new_id()`
unfoldable pub identify : Platform → UnifiedOrder → Action UnifiedOrder
identify p o = elim o.client_order_id [
  | some cid ↦ pure (ok o)
  | none ↦ (do cid ← draw p; pure (ok (record o { client_order_id = some cid })))
]

-- `order.order_type not in adapter.supported_order_types()`
unfoldable pub check_supported : Platform → OrderType → Action (Unit {0})
check_supported p type = pure (raise_if (not (p.supports type)) unsupported_order_type)

-- The halt check.
unfoldable pub check_halt : HaltStateMachine → UnifiedOrder → Action (Unit {0})
check_halt halt o =
    pure (raise_if (not (can_place_order halt o.instrument o.reduce_only)) instrument_halted)

-- The store after a write, if it was not refused.
abbrev pub keep_store : Desk → Result StateStore → Desk × Result (Unit {0})
keep_store d (ok s) = (record d { store = s }, ok tt)
keep_store d (err e) = (d, err e)

-- `await state_store.write_audit_event(...)`
unfoldable pub audit : AuditEvent → Action (Unit {0})
audit a d = keep_store d (write_audit_event a d.store)

-- `await state_store.get_order(...)`, which must find the order.
-- `if existing is None: raise OrderNotFoundError(...)`
abbrev pub found : Option OrderRecord → Result OrderRecord
found none = err order_not_found
found (some r) = ok r

-- `await state_store.get_order(...)`, which must find the order.
unfoldable pub fetch : (client_order_id : Ident) → Action OrderRecord
fetch cid d = (d, found (get_order cid d.store))

-- The steps after the answer of the adapter: the record is made and stored, the event published,
-- and the audit event written.
unfoldable pub settle :
    Platform
    → (correlation_id : Ident) → OrderRecord
    → (Stamp → Event)
    → AuditPayload
    → OrderResult
    → Action OrderResult
settle p correlation r event payload result = do
  pure (check_record r)
  update λ d. record d { store = upsert_order r d.store }
  first ← stamp p correlation
  update λ d. record d { published = d.published ++ event first ∷ [] }
  second ← stamp p correlation
  audit (record { stamp = second; payload = payload })
  pure (ok result)

unfoldable pub placed_record : UnifiedOrder → (correlation_id : Ident) → OrderResult → OrderRecord
placed_record o correlation result = record {
  instrument = o.instrument;
  order_type = o.order_type;
  side = o.side;
  quantity = o.quantity;
  time_in_force = o.time_in_force;
  client_order_id = result.client_order_id;
  price = o.price;
  stop_price = o.stop_price;
  reduce_only = o.reduce_only;
  client_tag = o.client_tag;
  take_profit = o.take_profit;
  stop_loss = o.stop_loss;
  platform_order_id = result.platform_order_id;
  status = result.status;
  filled_quantity = result.filled_quantity;
  average_fill_price = result.average_fill_price;
  correlation_id = correlation;
  created_at = result.created_at;
  updated_at = result.updated_at;
  expire_at = o.expire_at;
}

unfoldable pub dispatch_place_order :
    Platform → RiskInputs → HaltStateMachine → UnifiedOrder → Action OrderResult
dispatch_place_order p inputs halt order = do
  check_supported p order.order_type
  o ← identify p order
  correlation ← draw p
  pure (run_risk_checks o inputs)
  check_halt halt o
  result ← ask p (place_order o)
  settle p correlation (placed_record o correlation result)
      (λ s. order_placed s (placed_record o correlation result))
      (placed result.client_order_id result.platform_order_id result.status) result

-- The order that a modification makes of an existing one, for the risk checks.
unfoldable pub would_be_order : OrderRecord → OrderModification → UnifiedOrder
would_be_order existing m = record {
  instrument = existing.instrument;
  order_type = existing.order_type;
  side = existing.side;
  quantity = get_or m.quantity existing.quantity;
  time_in_force = existing.time_in_force;
  client_order_id = some existing.client_order_id;
  price = or_else m.price existing.price;
  stop_price = or_else m.stop_price existing.stop_price;
  reduce_only = existing.reduce_only;
  client_tag = existing.client_tag;
  take_profit = or_else m.take_profit existing.take_profit;
  stop_loss = or_else m.stop_loss existing.stop_loss;
  position_id = none;
  expire_at = none;
}

-- An existing record with the state that the platform answered.
unfoldable pub answered_record : OrderRecord → OrderResult → OrderRecord
answered_record existing result = record existing {
  platform_order_id = result.platform_order_id;
  status = result.status;
  filled_quantity = result.filled_quantity;
  average_fill_price = result.average_fill_price;
  updated_at = result.updated_at;
}

unfoldable pub modified_record : OrderRecord → OrderModification → OrderResult → OrderRecord
unfolding answered_record
modified_record existing m result = record (answered_record existing result) {
  quantity = get_or m.quantity existing.quantity;
  price = or_else m.price existing.price;
  stop_price = or_else m.stop_price existing.stop_price;
  take_profit = or_else m.take_profit existing.take_profit;
  stop_loss = or_else m.stop_loss existing.stop_loss;
}

-- `UnifiedOrder(...)`, which compares the expiry of a GTD order with the present.
unfoldable pub check_now : Platform → UnifiedOrder → Action (Unit {0})
check_now p o d = (d, check_order (p.clock d.drawn).instant o)

unfoldable pub dispatch_modify_order :
    Platform → RiskInputs → HaltStateMachine → OrderModification → Action OrderResult
dispatch_modify_order p inputs halt m = do
  existing ← fetch m.client_order_id
  correlation ← draw p
  let o = would_be_order existing m
  check_now p o
  check_supported p o.order_type
  spec ← pure (p.instrument_spec o.instrument)
  pure (run_risk_checks o (record inputs { instrument_spec = some spec }))
  check_halt halt o
  result ← ask p (modify_order m)
  settle p correlation (modified_record existing m result)
      (λ s. order_modified s (modified_record existing m result) existing)
      (modified m.client_order_id) result

unfoldable pub dispatch_cancel_order : Platform → (client_order_id : Ident) → Action OrderResult
dispatch_cancel_order p cid = do
  correlation ← draw p
  existing ← fetch cid
  result ← ask p (cancel_order cid)
  settle p correlation (answered_record existing result)
      (λ s. order_cancelled s cid existing.instrument) (cancelled cid) result
