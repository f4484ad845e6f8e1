-- ===== src/Trailing/Manager/Integrity.antt =====
-- `trailing/manager.py`: the check of the levels of a synthetic state against the platform.
use unified_trading_executio.Base.{
  Bool, true, false, not, ◌&&◌, ◌||◌, Option, none, some, is_some, or_else, List, [], ◌∷◌, ◌==◌,
  ℕ_key, attempt, Result, ok, err, if◌then◌else◌,
}
use unified_trading_executio.Decimal.{Decimal, abs_dec, ltb_ℤ, ◌-ℤ◌}
use unified_trading_executio.Types.{DateTime, OrderSide, TpSlAttachment}
use unified_trading_executio.Trailing.Types.{
  armed, triggered, degraded, TrailingPhase, TrailingState, Reason, IntegrityNote, missing_stop,
  adopted_tighter_stop, changed_externally, missing_take_profit, integrity_read, integrity_halted,
  integrity_raised, integrity_unconfirmed, integrity_notes, integrity_restore,
  protection_confirmed_reason, position_closed, is_protection_error,
}
use unified_trading_executio.Trailing.Legs.{stop_is_tighter}
use unified_trading_executio.Trailing.Manager.Desk.{
  Venue, trailing_integrity_restore, Protection, Step, ◌>>=◌, ◌>>◌, give, read_clock,
  upsert_trailing_state, publish, write_audit, reserve, read_protection, instrument_spec,
  modify_protection, may_reduce,
}
use unified_trading_executio.Trailing.Manager.Failures.{
  record_protection_failure, protection_confirmed,
}
use unified_trading_executio.Trailing.Manager.Confirming.{
  Verdict, confirmed, denied, confirm_levels,
}
use unified_trading_executio.Trailing.Manager.Closing.{complete_position_close}
use unified_trading_executio.Trailing.Manager.Positions.{if_owned}

-- What a reading of the levels asks for.
pub record Finding : Type 0 where
  pub write_stop : Option Decimal
  pub adopted_stop : Option Decimal
  pub note : Option IntegrityNote

-- `abs(actual - expected) > tick_size`
abbrev pub is_off : (actual expected tick_size : Decimal) → Bool
is_off actual expected tick = ltb_ℤ tick (abs_dec (actual -ℤ expected))

-- The stop of the state against the one of the platform.
abbrev pub compare_stop :
    OrderSide
    → (tick_size : Decimal) → (expected : Option Decimal) → (actual : Option TpSlAttachment)
    → Finding
compare_stop side tick none actual = record { write_stop = none; adopted_stop = none; note = none }
compare_stop side tick (some e) none = record {
  write_stop = some e;
  adopted_stop = none;
  note = some missing_stop;
}
compare_stop side tick (some e) (some a) =
    if not (is_off a.trigger_price e tick)
    then record { write_stop = none; adopted_stop = none; note = none }
    else if stop_is_tighter side a.trigger_price e
    then record {
      write_stop = none;
      adopted_stop = some a.trigger_price;
      note = some adopted_tighter_stop;
    }
    else record { write_stop = some e; adopted_stop = none; note = some changed_externally }

-- The take profit that the platform lost.
abbrev pub lost_profit :
    (expected : Option Decimal) → (actual : Option TpSlAttachment) → Option Decimal
lost_profit none actual = none
lost_profit (some e) none = some e
lost_profit (some e) (some a) = none

-- `reasons`
abbrev pub notes_of : Option IntegrityNote → (lost : Option Decimal) → List IntegrityNote
notes_of none none = []
notes_of (some n) none = n ∷ []
notes_of none (some _) = missing_take_profit ∷ []
notes_of (some n) (some _) = n ∷ missing_take_profit ∷ []

abbrev pub announce_restored : (recovered : Bool) → TrailingState → Step (Unit {0})
announce_restored recovered s = if recovered then publish s degraded integrity_restore else give tt

-- The levels are confirmed, and the state is stored with them.
unfoldable pub restored :
    TrailingState
    → (stop take_profit : Option Decimal) → (now : DateTime) → Reason
    → Step TrailingState
restored s stop take_profit now reason = do
  let (final, recovered) = protection_confirmed s stop take_profit now
  upsert_trailing_state final
  announce_restored recovered final
  write_audit trailing_integrity_restore final s.current_stop final.current_stop reason
  give final

abbrev pub after_restoring :
    Venue
    → TrailingState
    → Finding
    → (notes : List IntegrityNote) → (now : DateTime) → Verdict (Option Decimal × Option Decimal)
    → Step TrailingState
after_restoring v s f notes now (denied detail) =
    record_protection_failure v s (integrity_unconfirmed detail)
after_restoring v s f notes now (confirmed (stop, take_profit)) =
    restored s (or_else stop f.adopted_stop) take_profit now (integrity_notes notes)

abbrev pub after_rewrite :
    Venue
    → TrailingState
    → Finding
    → (profit : Option Decimal) → (tick_size : Decimal) → (now : DateTime) → Result (Unit {0})
    → Step TrailingState
after_rewrite v s f profit tick now (err e) = record_protection_failure v s (integrity_raised e)
after_rewrite v s f profit tick now (ok _) = do
  verdict ← confirm_levels v s f.write_stop profit tick
  after_restoring v s f (notes_of f.note profit) now verdict

-- The levels that differ are written again.
unfoldable pub rewrite_levels :
    Venue
    → TrailingState
    → Finding
    → (profit : Option Decimal) → (tick_size : Decimal) → (now : DateTime) → Step TrailingState
rewrite_levels v s f profit tick now =
    if not (may_reduce v s.instrument) then record_protection_failure v s integrity_halted else (do
      granted ← reserve v
      if granted
          then (do
            written ← attempt (modify_protection v s profit f.write_stop)
            after_rewrite v s f profit tick now written)
          else give s)

-- All levels are as the state has them.
unfoldable pub confirm_unchanged : TrailingState → (now : DateTime) → Step TrailingState
confirm_unchanged s now =
    if not (is_protection_error s.last_error) && s.failure_count == 0 then give s else (do
      let (final, recovered) = protection_confirmed s none none now
      upsert_trailing_state final
      if recovered
          then (publish final degraded integrity_restore
              >> write_audit trailing_integrity_restore final s.current_stop final.current_stop
                  protection_confirmed_reason)
          else give tt
      give final)

abbrev pub settle_finding :
    Venue
    → TrailingState
    → Finding
    → (profit : Option Decimal) → (tick_size : Decimal) → (now : DateTime) → Step TrailingState
settle_finding v s f profit tick now =
    if is_some f.write_stop || is_some profit
    then rewrite_levels v s f profit tick now
    else if is_some f.adopted_stop
    then restored s f.adopted_stop none now (integrity_notes (notes_of f.note profit))
    else confirm_unchanged s now

abbrev pub after_reading : Venue → TrailingState → Result (Option Protection) → Step TrailingState
after_reading v s (err e) = record_protection_failure v s (integrity_read e)
after_reading v s (ok none) = do now ← read_clock v; complete_position_close v s position_closed now
after_reading v s (ok (some p)) = do
  now ← read_clock v
  rules ← instrument_spec v s.instrument
  settle_finding v s (compare_stop s.side rules.tick_size s.current_stop p.stop_loss)
      (lost_profit (if_owned s.take_profit_owned s.current_take_profit) p.take_profit)
      rules.tick_size now

-- `phase in (ARMED, DEGRADED, TRIGGERED)`
abbrev pub is_protected : TrailingPhase → Bool
is_protected armed = true
is_protected degraded = true
is_protected triggered = true
is_protected _ = false

-- The steps of `check_integrity` on a synthetic state.
unfoldable pub check_synthetic : Venue → TrailingState → Step TrailingState
check_synthetic v s =
    if not (is_protected s.phase)
    then give s
    else (do current ← attempt (read_protection v s); after_reading v s current)
