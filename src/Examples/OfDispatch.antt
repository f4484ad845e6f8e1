-- ===== src/Examples/OfDispatch.antt =====
-- A platform that accepts every request, and orders that are dispatched to it.
use unified_trading_executio.Base.{
  ◌+◌, ◌≡◌, refl, ap, ◌⊎◌, true, false, some, none, [], ◌∷◌, ◌++◌, ok, err, value_error,
  order_not_found, ℕ_key,
}
use unified_trading_executio.Decimal.{decimals, pos}
use unified_trading_executio.Types.{
  InstrumentId-discrete, OrderStatus, OrderResult, OrderRecord, OrderModification, TimeInForce,
  InstrumentSpec, check_order, check_record, is_gtd, needs_price, needs_stop_price,
}
use unified_trading_executio.Risk.{risk_checks}
use unified_trading_executio.Halt.{
  HaltStateMachine, fresh_machine, can_place_order, is_halted, is_account_halted,
  is_instrument_halted,
}
use unified_trading_executio.Store.{upsert_order, get_order, write_audit_event, has_event}
use unified_trading_executio.Dispatch.{
  Platform, Desk, place_order, modify_order, cancel_order, draw, ask, stamp, check_supported,
  check_halt, audit, fetch, settle, check_now, would_be_order, answered_record, modified_record,
  dispatch_place_order, dispatch_modify_order, dispatch_cancel_order,
}
use unified_trading_executio.Dispatch.Guards.{
  IsGuarded, IsPermitted, dispatch_place_order-IsGuarded, dispatch_modify_order-IsGuarded,
  dispatch_cancel_order_asks,
}
use unified_trading_executio.Dispatch.Records.{
  IsPlaced, IsModified, IsCancelled, dispatch_place_order_records, dispatch_modify_order_records,
  dispatch_cancel_order_records,
}
use unified_trading_executio.Dispatch.Expiry.{
  naive_order, dispatch_modify_order_gtd, dispatch_place_order_naive,
}
use unified_trading_executio.Dispatch.Success.{dispatch_place_order_returns}
use unified_trading_executio.Examples.Samples.{
  row, dec, pair_spec, limit_order, risk_inputs, halt_config,
}

-- The answer to every request.
abbrev accepted : OrderResult
accepted = record {
  client_order_id = 7;
  platform_order_id = some 70;
  status = OrderStatus.opened;
  filled_quantity = pos 0;
  average_fill_price = none;
  created_at = record { instant = 5; aware = true };
  updated_at = record { instant = 5; aware = true };
}

abbrev platform : Platform
platform = record {
  platform_name = 1;
  account_id = 2;
  supports = λ type. true;
  instrument_spec = λ i. ok pair_spec;
  answer = λ before r. ok accepted;
  new_id = λ n. n + 1000;
  clock = λ n. record { instant = n; aware = true };
}

abbrev machine : HaltStateMachine
machine = fresh_machine halt_config

abbrev empty_desk : Desk
empty_desk = record {
  store = record { orders = []; order_history = []; audit_events = [] };
  published = [];
  requests = [];
  drawn = 0;
}

permitted : IsPermitted platform risk_inputs machine limit_order
unfolding risk_checks decimals InstrumentId-discrete can_place_order is_halted is_account_halted
    is_instrument_halted
permitted = record { type_supported = refl; risk_passed = refl; not_halted = refl }

dispatch_place_order-IsGuarded_example :
    IsGuarded
      (λ r.
        (r ≡ place_order (record limit_order { client_order_id = some 7 }))
        × IsPermitted platform risk_inputs machine
            (record limit_order { client_order_id = some 7 }))
      empty_desk
      (dispatch_place_order platform risk_inputs machine limit_order empty_desk)
dispatch_place_order-IsGuarded_example =
    dispatch_place_order-IsGuarded platform risk_inputs machine limit_order empty_desk

no_events : has_event 1002 [] ≡ false
unfolding has_event
no_events = refl

dispatch_place_order_returns_example :
    (dispatch_place_order platform risk_inputs machine limit_order empty_desk).1 ≡ ok accepted
dispatch_place_order_returns_example =
    dispatch_place_order_returns platform risk_inputs machine limit_order empty_desk 7 accepted
      permitted refl refl no_events

limit_order_placed :
    dispatch_place_order platform risk_inputs machine limit_order empty_desk
    ≡ ((dispatch_place_order platform risk_inputs machine limit_order empty_desk).0, ok accepted)
limit_order_placed =
    ap (λ out. ((dispatch_place_order platform risk_inputs machine limit_order empty_desk).0, out))
      (dispatch_place_order_returns platform risk_inputs machine limit_order empty_desk 7 accepted
        permitted refl refl no_events)

dispatch_place_order_records_example :
    IsPlaced platform limit_order empty_desk
      (dispatch_place_order platform risk_inputs machine limit_order empty_desk).0
      accepted
dispatch_place_order_records_example =
    dispatch_place_order_records platform risk_inputs machine limit_order empty_desk
      (dispatch_place_order platform risk_inputs machine limit_order empty_desk).0
      limit_order_placed

naive-IsPermitted : IsPermitted platform risk_inputs machine (naive_order limit_order 7 99)
unfolding risk_checks decimals InstrumentId-discrete can_place_order is_halted is_account_halted
    is_instrument_halted
naive-IsPermitted = record { type_supported = refl; risk_passed = refl; not_halted = refl }

-- The pair is bought with an expiry that has no time zone.
dispatch_place_order_naive_example :
    let (d', out) =
      dispatch_place_order platform risk_inputs machine (naive_order limit_order 7 99) empty_desk in
    (out ≡ err value_error)
    × (d'.requests ≡ [] ++ place_order (naive_order limit_order 7 99) ∷ [])
    × (d'.store ≡ empty_desk.store)
    × (d'.published ≡ [])
dispatch_place_order_naive_example =
    dispatch_place_order_naive platform risk_inputs machine limit_order empty_desk 7 99 accepted
      naive-IsPermitted refl

abbrev desk_with : OrderRecord → Desk
desk_with r = record empty_desk {
  store = record { orders = (7, r) ∷ []; order_history = r ∷ []; audit_events = [] };
}

abbrev smaller : OrderModification
smaller = record {
  client_order_id = 7;
  price = none;
  stop_price = none;
  quantity = some (dec 4);
  take_profit = none;
  stop_loss = none;
}

gtd_known : get_order 7 (desk_with (row TimeInForce.gtd)).store ≡ some (row TimeInForce.gtd)
unfolding get_order
gtd_known = refl

dispatch_modify_order_gtd_example :
    dispatch_modify_order platform risk_inputs machine smaller (desk_with (row TimeInForce.gtd))
    ≡ (record (desk_with (row TimeInForce.gtd)) { drawn = 0 + 1 }, err value_error)
dispatch_modify_order_gtd_example =
    dispatch_modify_order_gtd platform risk_inputs machine smaller (desk_with (row TimeInForce.gtd))
      (row TimeInForce.gtd) gtd_known refl

abbrev resting : Desk
resting = desk_with (row TimeInForce.gtc)

dispatch_modify_order-IsGuarded_example :
    IsGuarded
      (λ r.
        (r ≡ modify_order smaller)
        × (existing : OrderRecord) × (get_order 7 resting.store ≡ some existing)
        × (spec : InstrumentSpec) × (platform.instrument_spec existing.instrument ≡ ok spec)
        × IsPermitted platform
            (record risk_inputs { instrument_spec = some spec })
            machine
            (would_be_order existing smaller))
      resting
      (dispatch_modify_order platform risk_inputs machine smaller resting)
dispatch_modify_order-IsGuarded_example =
    dispatch_modify_order-IsGuarded platform risk_inputs machine smaller resting

resting_modified :
    dispatch_modify_order platform risk_inputs machine smaller resting
    ≡ ((dispatch_modify_order platform risk_inputs machine smaller resting).0, ok accepted)
unfolding dispatch_modify_order check_supported draw check_halt ask settle modified_record
    answered_record check_record stamp upsert_order audit write_audit_event has_event fetch
    get_order check_now check_order is_gtd needs_price needs_stop_price would_be_order
    can_place_order is_halted is_account_halted is_instrument_halted risk_checks decimals
    InstrumentId-discrete
resting_modified = refl

dispatch_modify_order_records_example :
    IsModified platform smaller resting
      (dispatch_modify_order platform risk_inputs machine smaller resting).0
      accepted
dispatch_modify_order_records_example =
    dispatch_modify_order_records platform risk_inputs machine smaller resting
      (dispatch_modify_order platform risk_inputs machine smaller resting).0 resting_modified

dispatch_cancel_order_asks_example :
    ((get_order 7 resting.store ≡ none)
      × (dispatch_cancel_order platform 7 resting
          ≡ (record resting { drawn = 0 + 1 }, err order_not_found)))
    ⊎ ((existing : OrderRecord) × (get_order 7 resting.store ≡ some existing)
        × ((dispatch_cancel_order platform 7 resting).0.requests ≡ [] ++ cancel_order 7 ∷ []))
dispatch_cancel_order_asks_example = dispatch_cancel_order_asks platform 7 resting

resting_cancelled :
    dispatch_cancel_order platform 7 resting
    ≡ ((dispatch_cancel_order platform 7 resting).0, ok accepted)
unfolding dispatch_cancel_order draw ask settle answered_record check_record stamp upsert_order
    audit write_audit_event has_event fetch get_order
resting_cancelled = refl

dispatch_cancel_order_records_example :
    IsCancelled platform 7 resting (dispatch_cancel_order platform 7 resting).0 accepted
dispatch_cancel_order_records_example =
    dispatch_cancel_order_records platform 7 resting (dispatch_cancel_order platform 7 resting).0
      resting_cancelled
