-- ===== src/Dispatch/Expiry.antt =====
-- Orders with an expiry (`dispatch/__init__.py`), and cancelling, which nothing blocks.
use unified_trading_executio.Base.{
  ℕ, ◌+◌, ◌≡◌, refl, Bool, true, false, not, Option, none, some, [], ◌∷◌, ◌++◌, Result, ok, err,
  value_error, ◌&&◌, is_some, raise_if, check_some, ◌>>◌,
}
use unified_trading_executio.Types.{
  Ident, UnifiedOrder, OrderModification, OrderResult, OrderRecord, TimeInForce, is_gtd,
  needs_price, needs_stop_price, check_order, check_record, check_positive, check_expiry, when,
}
use unified_trading_executio.Decimal.{Decimal, pos, leb_ℤ}
use unified_trading_executio.Risk.{RiskInputs}
use unified_trading_executio.Halt.{HaltStateMachine}
use unified_trading_executio.Store.{get_order}
use unified_trading_executio.Dispatch.Events.{place_order, Platform, Desk}
use unified_trading_executio.Dispatch.Actions.{draw, ask}
use unified_trading_executio.Dispatch.Operations.{
  identify, check_supported, check_halt, fetch, settle, placed_record, dispatch_place_order,
  would_be_order, check_now, dispatch_modify_order,
}
use unified_trading_executio.Dispatch.Guards.{IsPermitted}

-- A step that may raise a value error, before one that does.
raise-then :
    (b : Bool) (k : Result (Unit {0}))
    → k ≡ err value_error
    → (raise_if b value_error >> k) ≡ err value_error
raise-then true k h = refl
raise-then false k h = h

some-then :
    (v : Option Decimal) (k : Result (Unit {0}))
    → k ≡ err value_error
    → (check_some v check_positive >> k) ≡ err value_error
some-then none k h = h
some-then (some v) k h = raise-then _ k h

-- A GTD order without an expiry cannot be constructed.
check_order_gtd :
    (now : ℕ) (o : UnifiedOrder)
    → o.time_in_force ≡ TimeInForce.gtd
    → o.expire_at ≡ none
    → check_order now o ≡ err value_error
unfolding check_order is_gtd
check_order_gtd now o gtd missing =
    let last : when (is_gtd o.time_in_force) (check_expiry now o.expire_at) ≡ err value_error =
      rw (gtd, missing) refl in
    raise-then (needs_price o.order_type && not (is_some o.price)) _ (
      raise-then (needs_stop_price o.order_type && not (is_some o.stop_price)) _ (
        raise-then (leb_ℤ o.quantity (pos 0)) _
          (some-then o.price _ (some-then o.stop_price _ last))))

-- Every modification of a GTD order in the store raises a value error, and changes nothing but the
-- number of ids drawn.
pub dispatch_modify_order_gtd :
    (p : Platform) (inputs : RiskInputs) (halt : HaltStateMachine) (m : OrderModification)
    (d : Desk) (existing : OrderRecord)
    → get_order m.client_order_id d.store ≡ some existing
    → existing.time_in_force ≡ TimeInForce.gtd
    → dispatch_modify_order p inputs halt m d ≡ (record d { drawn = d.drawn + 1 }, err value_error)
unfolding dispatch_modify_order fetch draw check_now would_be_order
dispatch_modify_order_gtd p inputs halt m d existing known gtd =
    rw (known, check_order_gtd (p.clock (d.drawn + 1)).instant (would_be_order existing m) gtd refl)
      refl

-- An order with an id and an expiry that has no time zone.
abbrev pub naive_order : UnifiedOrder → (cid : Ident) → (instant : ℕ) → UnifiedOrder
naive_order order cid t = record order {
  client_order_id = some cid;
  expire_at = some (record { instant = t; aware = false });
}

-- An order that passes every guard and has an expiry without a time zone is placed on the platform;
-- then a value error is raised, and neither the store nor the events show the order.
pub dispatch_place_order_naive :
    (p : Platform) (inputs : RiskInputs) (halt : HaltStateMachine) (order : UnifiedOrder) (d : Desk)
    (cid : Ident) (t : ℕ) (result : OrderResult)
    → IsPermitted p inputs halt (naive_order order cid t)
    → p.answer d.requests (place_order (naive_order order cid t)) ≡ ok result
    → let (d', out) = dispatch_place_order p inputs halt (naive_order order cid t) d in
      (out ≡ err value_error)
      × (d'.requests ≡ d.requests ++ place_order (naive_order order cid t) ∷ [])
      × (d'.store ≡ d.store)
      × (d'.published ≡ d.published)
unfolding dispatch_place_order check_supported identify draw check_halt ask settle placed_record
    check_record
dispatch_place_order_naive p inputs halt order d cid t result h answered =
    rw (h.type_supported, h.risk_passed, h.not_halted, answered) (refl, refl, refl, refl)
