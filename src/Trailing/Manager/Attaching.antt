-- ===== src/Trailing/Manager/Attaching.antt =====
-- `trailing/manager.py`: attaching a synthetic trailing stop to a leg.
use unified_trading_executio.Base.{
  ℕ, ◌+◌, Bool, true, false, not, ◌&&◌, ◌||◌, Option, none, some, is_some, List, [], ◌∷◌, Dict,
  pure, attempt, Result, ok, err, Error, raise_if, trailing_state, trailing_not_supported,
  invalid_order, instrument_halted, rate_limit, if◌then◌else◌,
}
use unified_trading_executio.Decimal.{Decimal, abs_dec}
use unified_trading_executio.Types.{
  Ident, DateTime, Instrument, Position, Ticker, Candle, InstrumentSpec,
}
use unified_trading_executio.Trailing.Types.{
  synthetic, arming, armed, failed, CandleTimeframe, TrailingSpec, uses_atr, TrailingState,
  check_state, is_active_phase, not_confirmed, raised, attach_raised, attach_unconfirmed, attached,
  takeover, plain, RoutingReason,
}
use unified_trading_executio.Trailing.Math.{resolve_activation_price, is_activation_reached}
use unified_trading_executio.Trailing.Atr.{wilder_atr}
use unified_trading_executio.Trailing.Routing.{TrailingRequest}
use unified_trading_executio.Trailing.Legs.{side_of, resolve_bases, basis_price, attachment_matches}
use unified_trading_executio.Trailing.Levels.{first_stop, first_profit}
use unified_trading_executio.Trailing.Manager.Desk.{
  Venue, get_position_tpsl, fetch_ticker, fetch_candles, trailing_failed, trailing_attached,
  trailing_takeover, Protection, Step, ◌>>=◌, ◌>>◌, give, called, read_clock, draw_id,
  upsert_trailing_state, publish, write_audit, reserve, instrument_spec, modify_protection,
  may_reduce,
}
use unified_trading_executio.Trailing.Manager.Failures.{degrade_now}
use unified_trading_executio.Trailing.Manager.Confirming.{
  Verdict, confirmed, denied, confirm, price_of,
}

abbrev any_active : Dict Ident TrailingState → Bool
any_active [] = false
any_active ((_, s) ∷ d) = is_active_phase s.phase || any_active d

abbrev if_rehydrated : Option Bool → Step (Unit {0})
if_rehydrated (some true) m = (m, ok tt)
if_rehydrated (some false) m = (m, err trailing_state)
if_rehydrated none m =
    if any_active m.states
    then (m, err trailing_state)
    else (record m { rehydrated = some true }, ok tt)

-- `_require_rehydrated`
unfoldable pub require_rehydrated : Step (Unit {0})
require_rehydrated m = if_rehydrated m.rehydrated m

unfoldable pub read_candles :
    Venue → Instrument → CandleTimeframe → (limit : ℕ) → Step (List Candle)
read_candles v i t limit m = let c = fetch_candles i t limit in (called c m, v.candles m.calls c)

abbrev pub atr_from :
    Venue
    → Instrument
    → (period : Option ℕ) → (timeframe : Option CandleTimeframe) → Step (Option Decimal)
atr_from v i none _ = pure (err trailing_not_supported)
atr_from v i (some _) none = pure (err trailing_not_supported)
atr_from v i (some period) (some timeframe) = do
  candles ← read_candles v i timeframe (period + 1)
  atr ← pure (wilder_atr candles period)
  give (some atr)

-- `_load_atr`
unfoldable pub load_atr : Venue → TrailingSpec → Instrument → Step (Option Decimal)
load_atr v spec i =
    if not (uses_atr spec) then give none else atr_from v i spec.atr_period spec.atr_timeframe

unfoldable pub read_ticker : Venue → Instrument → Step (Option Ticker)
read_ticker v i m = (called (fetch_ticker i) m, v.ticker m.calls i)

-- `self._adapter.get_position_tpsl(instrument, position_id)`
unfoldable pub read_leg : Venue → Instrument → (position_id : Ident) → Step (Option Protection)
read_leg v i position_id m =
    let c = get_position_tpsl i position_id in (called c m, v.protection m.calls c)

-- `if value is None: raise error`
abbrev pub required {ℓ} : {A : Type ℓ} → Error → Option A → Result A
required e none = err e
required e (some a) = ok a

-- Levels that the position has already are only replaced on request.
unfoldable pub check_existing :
    (take_over : Bool) → (take_profit : Option Decimal) → Protection → Result (Unit {0})
check_existing take_over take_profit p =
    raise_if
      (not take_over && (is_some p.stop_loss || (is_some p.take_profit && is_some take_profit)))
      trailing_state

-- The halts and the budget before a write.
unfoldable pub permit : Venue → Instrument → (will_write : Bool) → Step (Unit {0})
permit v i will_write = do
  pure (raise_if (not (may_reduce v i)) instrument_halted)
  if will_write then (do granted ← reserve v; pure (raise_if (not granted) rate_limit)) else give tt

abbrev pub attach_failed_at : TrailingState → Error → (now : DateTime) → TrailingState
attach_failed_at s e now = record s {
  phase = failed;
  last_error = some (plain (attach_raised e));
  failure_count = s.failure_count + 1;
  updated_at = now;
}

-- `_attach_failed`
unfoldable pub attach_failed : Venue → TrailingState → Error → Step (Unit {0})
attach_failed v s e = do
  now ← read_clock v
  let after = attach_failed_at s e now
  upsert_trailing_state after
  publish after arming (attach_raised e)
  write_audit trailing_failed after s.previous_stop_loss none (attach_raised e)

-- What one reading says of the levels that were written.
abbrev pub judge_attached :
    (stop take_profit : Option Decimal)
    → (tick_size : Decimal) → Result (Option Protection)
    → Verdict (Unit {0})
judge_attached stop take_profit tick (err e) = denied (some (raised e))
judge_attached stop take_profit tick (ok none) = denied (some not_confirmed)
judge_attached stop take_profit tick (ok (some p)) =
    if attachment_matches p.stop_loss stop tick && attachment_matches p.take_profit take_profit tick
    then confirmed tt
    else denied (some not_confirmed)

abbrev pub after_confirming : Venue → TrailingState → Verdict (Unit {0}) → Step (Unit {0})
after_confirming v s (confirmed _) = give tt
after_confirming v s (denied detail) =
    degrade_now v s (attach_unconfirmed detail) >>= λ _. pure (err trailing_state)

-- `_confirm_protection`
unfoldable pub confirm_protection :
    Venue
    → TrailingState
    → (stop take_profit : Option Decimal) → (tick_size : Decimal) → Step (Unit {0})
confirm_protection v s stop take_profit tick = do
  verdict ← confirm v s (judge_attached stop take_profit tick) 2 none
  after_confirming v s verdict

abbrev pub after_attaching :
    Venue
    → TrailingState
    → (stop take_profit : Option Decimal) → (tick_size : Decimal) → Result (Unit {0})
    → Step (Unit {0})
after_attaching v s stop take_profit tick (err e) = attach_failed v s e >> pure (err e)
after_attaching v s stop take_profit tick (ok _) = confirm_protection v s stop take_profit tick

-- The first levels are written and confirmed.
unfoldable pub write_levels :
    Venue
    → TrailingState
    → (stop take_profit : Option Decimal) → (tick_size : Decimal) → Step (Unit {0})
write_levels v s stop take_profit tick =
    if is_some stop || is_some take_profit
    then (do
      written ← attempt (modify_protection v s take_profit stop)
      after_attaching v s stop take_profit tick written)
    else give tt

-- What is known of a trailing stop before its row is made.
pub record Plan : Type 0 where
  pub rules : InstrumentSpec
  pub atr : Option Decimal
  pub basis : Decimal
  pub activation : Option Decimal
  pub activated : Bool
  pub stop : Option Decimal
  pub take_profit : Option Decimal
  pub previous : Protection

-- The row of a synthetic trailing stop that is being attached.
abbrev pub arming_state :
    Venue
    → TrailingRequest
    → Position
    → (position_id : Ident) → RoutingReason
    → Plan
    → (now : DateTime) → (trailing_id : Ident) → TrailingState
arming_state v r leg position_id reason p now i =
    let side = side_of leg.quantity in
    let bases =
      resolve_bases r.spec synthetic (v.protection_capability r.instrument)
        (v.market_data_capability r.instrument) side in
    record {
      trailing_id = i;
      instrument = r.instrument;
      position_id = position_id;
      mode = synthetic;
      phase = arming;
      spec = r.spec;
      side = side;
      entry_price = leg.average_entry_price;
      quantity = abs_dec leg.quantity;
      created_at = now;
      updated_at = now;
      position_opened_at = leg.opened_at;
      routing_reason = some reason;
      resolved_basis = bases.0;
      protection_trigger_basis = bases.1;
      current_stop = none;
      current_take_profit = none;
      stop_owned = is_some p.stop;
      take_profit_owned = is_some p.take_profit;
      previous_stop_loss = price_of p.previous.stop_loss;
      previous_take_profit = price_of p.previous.take_profit;
      best_basis = some p.basis;
      resolved_activation_price = p.activation;
      activated = false;
      atr_value = p.atr;
      atr_as_of = if is_some p.atr then some now else none;
      native_id = none;
      last_reprice_at = none;
      reprice_count = 0;
      last_error = none;
      failure_count = 0;
    }

-- What `_attach_synthetic` reads and computes before it asks the halts and the budget.
unfoldable pub plan_synthetic :
    Venue → TrailingRequest → Position → (position_id : Ident) → Step Plan
plan_synthetic v r leg position_id = do
  let side = side_of leg.quantity
  let entry = leg.average_entry_price
  rules ← instrument_spec v r.instrument
  atr ← load_atr v r.spec r.instrument
  sampled ← pure (
      required trailing_not_supported
        (resolve_bases r.spec synthetic (v.protection_capability r.instrument)
          (v.market_data_capability r.instrument) side).0)
  answer ← read_ticker v r.instrument
  ticker ← pure (required trailing_not_supported answer)
  basis ← pure (required trailing_not_supported (basis_price ticker sampled))
  activation ← pure (resolve_activation_price r.spec side entry)
  let activated = is_activation_reached side basis activation
  stop ← pure (first_stop r.spec side entry basis atr rules activated)
  take_profit ← pure (first_profit side entry atr rules r.spec.take_profit)
  existing ← read_leg v r.instrument position_id
  previous ← pure (required invalid_order existing)
  pure (check_existing r.take_over_existing_protection take_profit previous)
  give (record {
    rules = rules;
    atr = atr;
    basis = basis;
    activation = activation;
    activated = activated;
    stop = stop;
    take_profit = take_profit;
    previous = previous;
  })

abbrev pub attached_at : TrailingState → Plan → (now : DateTime) → TrailingState
attached_at s p now = record s {
  phase = armed;
  current_stop = p.stop;
  current_take_profit = p.take_profit;
  activated = p.activated;
  last_reprice_at = if is_some p.stop then some now else none;
  updated_at = now;
}

-- That the trailing stop is attached is published and written down.
unfoldable pub announce_attached :
    (take_over : Bool) → (replaced : Bool) → (before after : TrailingState) → Step (Unit {0})
announce_attached take_over replaced before after = do
  publish after arming attached
  write_audit trailing_attached after before.previous_stop_loss after.current_stop attached
  if take_over && replaced
      then write_audit trailing_takeover after before.previous_stop_loss after.current_stop takeover
      else give tt

-- `_attach_synthetic`
unfoldable pub attach_synthetic :
    Venue → TrailingRequest → Position → (position_id : Ident) → RoutingReason → Step TrailingState
attach_synthetic v r leg position_id reason = do
  p ← plan_synthetic v r leg position_id
  permit v r.instrument (is_some p.stop || is_some p.take_profit)
  now ← read_clock v
  i ← draw_id v
  let s = arming_state v r leg position_id reason p now i
  pure (check_state s)
  upsert_trailing_state s
  write_levels v s p.stop p.take_profit p.rules.tick_size
  let final = attached_at s p now
  upsert_trailing_state final
  announce_attached r.take_over_existing_protection
      (is_some s.previous_stop_loss || is_some s.previous_take_profit) s final
  give final
