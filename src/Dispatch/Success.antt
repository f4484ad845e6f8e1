-- ===== src/Dispatch/Success.antt =====
-- When placing an order returns (`dispatch/__init__.py`).
use unified_trading_executio.Base.{◌+◌, ◌≡◌, refl, false, some, ok, check_some}
use unified_trading_executio.Types.{Ident, UnifiedOrder, OrderResult, check_aware, check_record}
use unified_trading_executio.Risk.{RiskInputs}
use unified_trading_executio.Halt.{HaltStateMachine}
use unified_trading_executio.Store.{upsert_order, write_audit_event, has_event}
use unified_trading_executio.Dispatch.Events.{Platform, place_order, Desk}
use unified_trading_executio.Dispatch.Actions.{draw, ask, stamp}
use unified_trading_executio.Dispatch.Operations.{
  identify, check_supported, check_halt, audit, settle, placed_record, dispatch_place_order,
}
use unified_trading_executio.Dispatch.Guards.{IsPermitted}

-- Placing an order with an id returns the answer of the adapter if the order passes the guards, the
-- adapter answers, the expiry, if there is one, has a time zone, and the audit trail has no event yet
-- with the id that is drawn for the audit event.
pub dispatch_place_order_returns :
    (p : Platform) (inputs : RiskInputs) (halt : HaltStateMachine) (order : UnifiedOrder) (d : Desk)
    (cid : Ident) (result : OrderResult)
    → let o = record order { client_order_id = some cid } in
      IsPermitted p inputs halt o
      → p.answer d.requests (place_order o) ≡ ok result
      → check_some order.expire_at check_aware ≡ ok tt
      → has_event (p.new_id (d.drawn + 1 + 1)) d.store.audit_events ≡ false
      → (dispatch_place_order p inputs halt o d).1 ≡ ok result
unfolding dispatch_place_order check_supported identify draw check_halt ask settle placed_record
    check_record stamp upsert_order audit write_audit_event
dispatch_place_order_returns p inputs halt order d cid result h answered aware new =
    rw (h.type_supported, h.risk_passed, h.not_halted, answered, aware, new) refl
