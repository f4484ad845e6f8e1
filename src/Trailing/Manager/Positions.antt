-- ===== src/Trailing/Manager/Positions.antt =====
-- `trailing/manager.py`: what an update of a position does to the state of its leg.
use unified_trading_executio.Base.{
  Bool, true, false, not, ◌&&◌, ◌||◌, Option, none, some, is_some, List, [], ◌∷◌, Dict, ℕ_key, ◌==◌,
  pure, attempt, Result, ok, err, leb, if◌then◌else◌,
}
use unified_trading_executio.Decimal.{Decimal, pos, eqb_ℤ, ltb_ℤ, abs_dec}
use unified_trading_executio.Types.{
  Ident, DateTime, Instrument, InstrumentId, instrument_key, Position,
}
use unified_trading_executio.Trailing.Types.{
  degraded, TrailingState, is_active_phase, halted_not_resized, budget_not_resized, resize_raised,
  resize_unconfirmed, quantity_change, position_closed, position_side_flipped,
}
use unified_trading_executio.Trailing.Math.{resolve_activation_price}
use unified_trading_executio.Trailing.Legs.{side_of, same_side}
use unified_trading_executio.Trailing.Manager.Desk.{
  Venue, trailing_reprice, Step, ◌>>=◌, ◌>>◌, give, require_ready, read_clock, get_trailing_state,
  upsert_trailing_state, publish, write_audit, reserve, instrument_spec, modify_protection,
  is_synthetic, may_reduce,
}
use unified_trading_executio.Trailing.Manager.Failures.{degrade_now, protection_confirmed}
use unified_trading_executio.Trailing.Manager.Confirming.{
  Verdict, confirmed, denied, confirm_levels,
}
use unified_trading_executio.Trailing.Manager.Ticking.{found}
use unified_trading_executio.Trailing.Manager.Closing.{
  clear_for_replacement, note_text, plain_note, settle_cancelled, complete_position_close,
}

-- `_resize_required`
unfoldable pub resize_required : Venue → TrailingState → Bool
resize_required v s =
    (s.stop_owned || s.take_profit_owned) && (v.protection_capability s.instrument).reprice_gap

abbrev pub if_owned : Bool → Option Decimal → Option Decimal
if_owned false level = none
if_owned true level = level

abbrev pub after_levels :
    Venue → TrailingState → Verdict (Option Decimal × Option Decimal) → Step TrailingState
after_levels v s (denied detail) = degrade_now v s (resize_unconfirmed detail)
after_levels v s (confirmed (stop, take_profit)) = do
  now ← read_clock v
  let final = (protection_confirmed s stop take_profit now).0
  upsert_trailing_state final
  (if (protection_confirmed s stop take_profit now).1
      then publish final degraded quantity_change
      else give tt)
  write_audit trailing_reprice final s.current_stop final.current_stop quantity_change
  give final

abbrev pub after_resize :
    Venue
    → TrailingState
    → (stop take_profit : Option Decimal) → Result (Unit {0})
    → Step TrailingState
after_resize v s stop take_profit (err e) = degrade_now v s (resize_raised e)
after_resize v s stop take_profit (ok _) = do
  spec ← instrument_spec v s.instrument
  verdict ← confirm_levels v s stop take_profit spec.tick_size
  after_levels v s verdict

-- `_resize_protection`
unfoldable pub resize_protection : Venue → TrailingState → Step TrailingState
resize_protection v s =
    let stop = if_owned s.stop_owned s.current_stop in
    let take_profit = if_owned s.take_profit_owned s.current_take_profit in
    if not (is_some stop) && not (is_some take_profit)
    then give s
    else if not (may_reduce v s.instrument)
    then degrade_now v s halted_not_resized
    else (do
      granted ← reserve v
      if granted
          then (do
            written ← attempt (modify_protection v s take_profit stop)
            after_resize v s stop take_profit written)
          else degrade_now v s budget_not_resized)

-- `symbol=? AND quote_currency IS ? AND asset_class=?`: what an instrument is listed by.
abbrev pub row_key : InstrumentId → InstrumentId
row_key i = record i {
  exchange = none;
  currency = none;
  expiry = none;
  strike = none;
  option_right = none;
  multiplier = none;
}

-- `ORDER BY updated_at DESC`
abbrev pub place_newest : TrailingState → List TrailingState → List TrailingState
place_newest s [] = s ∷ []
place_newest s (t ∷ ts) =
    if leb t.updated_at.instant s.updated_at.instant then s ∷ t ∷ ts else t ∷ place_newest s ts

-- `StateStore.list_trailing_states`, for an instrument and the active phases.
unfoldable pub list_active : Instrument → Dict Ident TrailingState → List TrailingState
list_active i [] = []
list_active i ((_, s) ∷ d) =
    let rest = list_active i d in
    if is_active_phase s.phase && row_key s.instrument.identity == row_key i.identity
    then place_newest s rest
    else rest

-- `next(state for state in states if state.position_id == position_id)`
abbrev pub of_leg : (position_id : Ident) → List TrailingState → Option TrailingState
of_leg i [] = none
of_leg i (s ∷ ss) = if s.position_id == i then some s else of_leg i ss

abbrev pub side_flipped : Venue → TrailingState → (now : DateTime) → Step TrailingState
side_flipped v s now = do
  clearing ← clear_for_replacement v s true
  settle_cancelled s (plain_note (note_text clearing.0)) position_side_flipped
      (note_text clearing.0) clearing.1 now

-- The state with the quantity of the position, and its entry price and activation if it grew.
unfoldable pub resized :
    TrailingState → (quantity entry_price : Decimal) → (now : DateTime) → Result TrailingState
resized s quantity entry_price now =
    if ltb_ℤ s.quantity quantity
    then elim (resolve_activation_price s.spec s.side entry_price) [
      | err e ↦ err e
      | ok activation ↦ ok (record s {
        quantity = quantity;
        entry_price = entry_price;
        resolved_activation_price = activation;
        updated_at = now;
      })
    ]
    else ok (record s { quantity = quantity; updated_at = now })

abbrev pub resize : Venue → TrailingState → Position → (now : DateTime) → Step TrailingState
resize v s p now = do
  updated ← pure (resized s (abs_dec p.quantity) p.average_entry_price now)
  upsert_trailing_state updated
  if not (eqb_ℤ (abs_dec p.quantity) s.quantity)
        && (is_synthetic updated.mode && resize_required v updated)
      then resize_protection v updated
      else give updated

-- The steps of `on_position_update` on an active state.
unfoldable pub update_position : Venue → Position → TrailingState → Step TrailingState
update_position v p s = do
  now ← read_clock v
  if eqb_ℤ p.quantity (pos 0)
      then complete_position_close v s position_closed now
      else if not (same_side (side_of p.quantity) s.side)
      then side_flipped v s now
      else resize v s p now

abbrev pub when_active : Venue → Position → Option TrailingState → Step (Option TrailingState)
when_active v p none = give none
when_active v p (some s) =
    if is_active_phase s.phase then found (update_position v p s) else give (some s)

abbrev pub for_leg : Venue → Position → Option TrailingState → Step (Option TrailingState)
for_leg v p none = give none
for_leg v p (some match) = do s ← get_trailing_state match.trailing_id; when_active v p s

abbrev pub named_update : Venue → Position → Option Ident → Step (Option TrailingState)
named_update v p none m = (m, ok none)
named_update v p (some i) m = for_leg v p (of_leg i (list_active p.instrument m.states)) m

-- `on_position_update`
unfoldable pub on_position_update : Venue → Position → Step (Option TrailingState)
on_position_update v p = require_ready v >> named_update v p p.position_id
