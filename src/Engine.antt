-- ===== src/Engine.antt =====
-- The halt management of `engine.py`: after a reconciliation, halts of instruments whose positions
-- agree are cleared, and instruments whose positions disagree are halted. Correlation ids and times
-- are left out of the effects.
mod Phases
pub mod Halts
use unified_trading_executio.Base.{
  Bool, true, false, not, ◌||◌, Option, none, some, List, [], ◌∷◌, ◌++◌, if◌then◌else◌, Result, ok,
  err, ◌>>=◌, Key, ◌==◌,
}
use unified_trading_executio.Types.{InstrumentId, Instrument, instrument_key, Ident}
use unified_trading_executio.Halt.{
  HaltScope, HaltEntry, HaltStateMachine, Outcome, enter_halt, try_clear_halt, active_halts,
}

pub data HaltAction : Type 0 where
  entered : HaltScope → Option Instrument → (reason detail : Ident) → HaltAction
  cleared : HaltScope → Option Instrument → HaltAction

-- The event on the bus, the record of the audit trail, and the row of the table of active halts.
pub data HaltEffect : Type 0 where
  published written persisted : HaltAction → HaltEffect

pub record HaltDesk : Type 0 where
  pub machine : HaltStateMachine
  pub effects : List HaltEffect

abbrev pub announce : HaltAction → HaltDesk → HaltDesk
announce a d = record d { effects = d.effects ++ published a ∷ written a ∷ persisted a ∷ [] }

-- `Engine._clear_halt`
unfoldable pub clear_halt : HaltScope → Option Instrument → HaltDesk → HaltDesk
clear_halt scope i d =
    let (m, done) = try_clear_halt d.machine scope i true false in
    let after = record d { machine = m } in if done then announce (cleared scope i) after else after

abbrev pub entered_after : HaltAction → HaltDesk → Outcome → Result HaltDesk
entered_after a d (ok (m, true)) = ok (announce a (record d { machine = m }))
entered_after a d (ok (m, false)) = ok (record d { machine = m })
entered_after a d (err e) = err e

-- `Engine._enter_halt`
unfoldable pub begin_halt :
    HaltScope → Option Instrument → (reason detail : Ident) → HaltDesk → Result HaltDesk
begin_halt scope i reason detail d =
    entered_after (entered scope i reason detail) d (enter_halt d.machine scope i reason detail)

-- The instrument of a position mismatch, with the reason and the detail of its halt.
pub record Disagreement : Type 0 where
  pub instrument : Instrument
  pub reason : Ident
  pub detail : Ident

-- `instrument in mismatched_instruments`
abbrev pub is_mismatched : InstrumentId → List Disagreement → Bool
is_mismatched key [] = false
is_mismatched key (x ∷ xs) = x.instrument.identity == key || is_mismatched key xs

-- The instrument whose halt is cleared for an entry, if it is the halt of an instrument that does
-- not disagree.
abbrev pub of_scope : HaltScope → Option Instrument → List Disagreement → Option Instrument
of_scope HaltScope.instrument (some i) bad = if is_mismatched i.identity bad then none else some i
of_scope HaltScope.instrument none bad = none
of_scope HaltScope.account i bad = none

abbrev pub clear_some : Option Instrument → HaltDesk → HaltDesk
clear_some none d = d
clear_some (some i) d = clear_halt HaltScope.instrument (some i) d

unfoldable pub release : List Disagreement → List HaltEntry → HaltDesk → HaltDesk
release bad [] d = d
release bad (e ∷ es) d = release bad es (clear_some (of_scope e.scope e.instrument bad) d)

unfoldable pub begin_all : List Disagreement → HaltDesk → Result HaltDesk
begin_all [] d = ok d
begin_all (x ∷ xs) d = do
  after ← begin_halt HaltScope.instrument (some x.instrument) x.reason x.detail d
  begin_all xs after

unfoldable pub clear_all : List HaltEntry → HaltDesk → HaltDesk
clear_all [] d = d
clear_all (e ∷ es) d = clear_all es (clear_halt e.scope e.instrument d)

-- `Engine._manage_halt_state`, for the position mismatches of a result and whether it is clean.
unfoldable pub manage_halt_state :
    List Disagreement → (is_clean : Bool) → HaltDesk → Result HaltDesk
manage_halt_state bad is_clean d = do
  after ← begin_all bad (release bad (active_halts d.machine) d)
  ok (if is_clean then clear_all (active_halts after.machine) after else after)
