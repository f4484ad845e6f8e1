-- ===== src/Trailing/Manager/Native.antt =====
-- `trailing/manager.py`: attaching a trailing stop of the platform.
use unified_trading_executio.Base.{
  ◌+◌, true, false, not, ◌&&◌, ◌||◌, Option, none, some, is_some, pure, attempt, Result, ok, err,
  Error, raise_if, trailing_state, trailing_not_supported, invalid_order, instrument_halted,
  rate_limit, not_implemented, if◌then◌else◌,
}
use unified_trading_executio.Decimal.{Decimal, abs_dec}
use unified_trading_executio.Types.{Ident, DateTime, Instrument, Position, InstrumentSpec}
use unified_trading_executio.Trailing.Types.{
  native, arming, armed, degraded, TrailingState, check_state, Reason, native_raised,
  native_not_confirmed, profit_raised, protection_error, RoutingReason,
}
use unified_trading_executio.Trailing.Math.{resolve_activation_price}
use unified_trading_executio.Trailing.Routing.{
  TrailingRequest, NativeTrailingRequest, NativeTrailingResult,
}
use unified_trading_executio.Trailing.Legs.{side_of, resolve_bases}
use unified_trading_executio.Trailing.Levels.{first_profit}
use unified_trading_executio.Trailing.Manager.Desk.{
  Venue, get_trailing_stop, get_position_trailing_stop, place_trailing_stop, trailing_degraded,
  Protection, Step, ◌>>=◌, ◌>>◌, give, called, read_clock, draw_id, upsert_trailing_state, publish,
  write_audit, reserve, instrument_spec, modify_protection, may_reduce,
}
use unified_trading_executio.Trailing.Manager.Confirming.{price_of}
use unified_trading_executio.Trailing.Manager.Attaching.{
  load_atr, read_leg, required, check_existing, permit, attach_failed, confirm_protection,
  announce_attached,
}

-- `except NotImplementedError`
abbrev pub as_unsupported :
    Result (Option NativeTrailingResult) → Result (Option NativeTrailingResult)
as_unsupported (err not_implemented) = err trailing_not_supported
as_unsupported r = r

-- `self._adapter.get_position_trailing_stop(instrument, position_id)`
unfoldable pub read_position_trail :
    Venue → Instrument → (position_id : Ident) → Step (Option NativeTrailingResult)
read_position_trail v i position_id m =
    let c = get_position_trailing_stop i position_id in
    (called c m, as_unsupported (v.native_trail m.calls c))

unfoldable pub read_trail :
    Venue → Instrument → (native_id : Ident) → Step (Option NativeTrailingResult)
read_trail v i native_id m =
    let c = get_trailing_stop native_id i in (called c m, v.native_trail m.calls c)

abbrev request_of : TrailingState → Position → (activation : Option Decimal) → NativeTrailingRequest
request_of s leg activation = record {
  instrument = s.instrument;
  position_id = s.position_id;
  side = s.side;
  quantity = abs_dec leg.quantity;
  offset = s.spec.offset;
  offset_type = s.spec.offset_type;
  basis = s.resolved_basis;
  activation_price = activation;
  client_id = s.trailing_id;
}

abbrev request_by :
    TrailingState → Position → Result (Option Decimal) → Result NativeTrailingRequest
request_by s leg (err e) = err e
request_by s leg (ok activation) = ok (request_of s leg activation)

-- `_native_request`
unfoldable pub native_request : TrailingState → Position → Result NativeTrailingRequest
native_request s leg = elim s.resolved_activation_price [
  | some price ↦ ok (request_of s leg (some price))
  | none ↦ request_by s leg (resolve_activation_price s.spec s.side leg.average_entry_price)
]

unfoldable pub place_trail : Venue → NativeTrailingRequest → Step NativeTrailingResult
place_trail v request m =
    let c = place_trailing_stop request in (called c m, v.placed_trail m.calls c)

-- `_degrade_attach`, with the reason but for the prefix `protection: `.
unfoldable pub degrade_attach : Venue → TrailingState → Reason → Step (Unit {0})
degrade_attach v s reason = do
  now ← read_clock v
  let after = record s {
    phase = degraded;
    last_error = some (protection_error reason);
    failure_count = s.failure_count + 1;
    updated_at = now;
  }
  upsert_trailing_state after
  publish after s.phase reason
  write_audit trailing_degraded after s.previous_stop_loss after.current_stop reason

-- The row is degraded, and the exception goes on.
abbrev pub degrade_and_raise : {A : Type 0} → Venue → TrailingState → Reason → Error → Step A
degrade_and_raise v s reason e = degrade_attach v s reason >>= λ _. pure (err e)

-- What is known of a native trailing stop before its row is made.
pub record NativePlan : Type 0 where
  pub rules : InstrumentSpec
  pub atr : Option Decimal
  pub activation : Option Decimal
  pub take_profit : Option Decimal
  pub previous : Protection
  pub previous_native : Option NativeTrailingResult

unfoldable pub plan_native :
    Venue → TrailingRequest → Position → (position_id : Ident) → Step NativePlan
plan_native v r leg position_id = do
  let side = side_of leg.quantity
  let entry = leg.average_entry_price
  rules ← instrument_spec v r.instrument
  atr ← load_atr v r.spec r.instrument
  activation ← pure (resolve_activation_price r.spec side entry)
  take_profit ← pure (first_profit side entry atr rules r.spec.take_profit)
  existing ← read_leg v r.instrument position_id
  previous ← pure (required invalid_order existing)
  pure (check_existing r.take_over_existing_protection take_profit previous)
  previous_native ← read_position_trail v r.instrument position_id
  pure (raise_if (is_some previous_native && not r.take_over_existing_protection) trailing_state)
  give (record {
    rules = rules;
    atr = atr;
    activation = activation;
    take_profit = take_profit;
    previous = previous;
    previous_native = previous_native;
  })

-- The row of a native trailing stop that is being attached.
abbrev pub arming_native :
    Venue
    → TrailingRequest
    → Position
    → (position_id : Ident) → RoutingReason
    → NativePlan
    → (now : DateTime) → (trailing_id : Ident) → TrailingState
arming_native v r leg position_id reason p now i =
    let side = side_of leg.quantity in
    let bases =
      resolve_bases r.spec native (v.protection_capability r.instrument)
        (v.market_data_capability r.instrument) side in
    record {
      trailing_id = i;
      instrument = r.instrument;
      position_id = position_id;
      mode = native;
      phase = arming;
      spec = r.spec;
      side = side;
      entry_price = leg.average_entry_price;
      quantity = abs_dec leg.quantity;
      created_at = now;
      updated_at = now;
      position_opened_at = leg.opened_at;
      routing_reason = some reason;
      resolved_basis = bases.0;
      protection_trigger_basis = bases.1;
      current_stop = none;
      current_take_profit = none;
      stop_owned = false;
      take_profit_owned = false;
      previous_stop_loss = price_of p.previous.stop_loss;
      previous_take_profit = price_of p.previous.take_profit;
      best_basis = none;
      resolved_activation_price = p.activation;
      activated = false;
      atr_value = p.atr;
      atr_as_of = if is_some p.atr then some now else none;
      native_id = none;
      last_reprice_at = none;
      reprice_count = 0;
      last_error = none;
      failure_count = 0;
    }

abbrev pub trailed_by : TrailingState → NativeTrailingResult → (now : DateTime) → TrailingState
trailed_by s n now = record s {
  native_id = some n.native_id;
  current_stop = n.current_stop;
  activated = true;
  updated_at = now;
}

abbrev pub after_trail_read :
    Venue
    → TrailingState
    → (now : DateTime) → Result (Option NativeTrailingResult)
    → Step TrailingState
after_trail_read v s now (err e) = degrade_and_raise v s (native_raised e) e
after_trail_read v s now (ok none) = degrade_and_raise v s native_not_confirmed trailing_state
after_trail_read v s now (ok (some n)) = do
  let trailed = record s {
    native_id = some n.native_id;
    current_stop = n.current_stop;
    updated_at = now;
  }
  upsert_trailing_state trailed
  give trailed

abbrev pub after_trail_placed :
    Venue → TrailingState → (now : DateTime) → Result NativeTrailingResult → Step TrailingState
after_trail_placed v s now (err e) = attach_failed v s e >>= λ _. pure (err e)
after_trail_placed v s now (ok n) = do
  upsert_trailing_state (trailed_by s n now)
  answer ← attempt (read_trail v s.instrument n.native_id)
  after_trail_read v (trailed_by s n now) now answer

-- The trailing stop is placed at the platform and read back.
unfoldable pub place_native :
    Venue → TrailingState → Position → (now : DateTime) → Step TrailingState
place_native v s leg now = do
  placed ← attempt (pure (native_request s leg) >>= place_trail v)
  after_trail_placed v s now placed

abbrev pub after_profit :
    Venue → TrailingState → (take_profit tick_size : Decimal) → Result (Unit {0}) → Step (Unit {0})
after_profit v s take_profit tick (err e) = degrade_and_raise v s (profit_raised e) trailing_state
after_profit v s take_profit tick (ok _) = confirm_protection v s none (some take_profit) tick

-- The take profit beside the trailing stop, if there is one.
unfoldable pub write_profit :
    Venue → TrailingState → (tick_size : Decimal) → Option Decimal → Step (Unit {0})
write_profit v s tick none = give tt
write_profit v s tick (some take_profit) =
    if not (may_reduce v s.instrument)
    then degrade_and_raise v s (profit_raised instrument_halted) instrument_halted
    else (do
      granted ← reserve v
      if granted
          then (do
            written ← attempt (modify_protection v s (some take_profit) none)
            after_profit v s take_profit tick written)
          else degrade_and_raise v s (profit_raised rate_limit) rate_limit)

-- `_attach_native`
unfoldable pub attach_native :
    Venue → TrailingRequest → Position → (position_id : Ident) → RoutingReason → Step TrailingState
attach_native v r leg position_id reason = do
  p ← plan_native v r leg position_id
  permit v r.instrument true
  now ← read_clock v
  i ← draw_id v
  let s = arming_native v r leg position_id reason p now i
  pure (check_state s)
  upsert_trailing_state s
  trailed ← place_native v s leg now
  write_profit v trailed p.rules.tick_size p.take_profit
  later ← read_clock v
  let final = record trailed {
    phase = armed;
    current_take_profit = p.take_profit;
    take_profit_owned = is_some p.take_profit;
    updated_at = later;
  }
  upsert_trailing_state final
  announce_attached r.take_over_existing_protection
      (is_some s.previous_stop_loss
        || (is_some s.previous_take_profit || is_some p.previous_native))
      s final
  give final
