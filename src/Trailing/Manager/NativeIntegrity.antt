-- ===== src/Trailing/Manager/NativeIntegrity.antt =====
-- `trailing/manager.py`: the check of a native trailing stop against the platform, `check_integrity`
-- and `integrity_pass`, and `get` and `list`.
use unified_trading_executio.Base.{
  Bool, true, false, not, ◌&&◌, Option, none, some, List, [], ◌∷◌, Dict, ℕ_key, attempt, pure,
  Result, ok, err, if◌then◌else◌,
}
use unified_trading_executio.Types.{Ident, DateTime, Instrument, Position, InstrumentSpec}
use unified_trading_executio.Trailing.Types.{
  TrailingMode, native, synthetic, auto, armed, triggered, degraded, TrailingPhase, TrailingState,
  is_active_phase, spec_raised, trail_read_raised, rearm_raised, identity_lost, IdentityNote,
  integrity_restore, trail_missing_halted, native_rearmed, position_closed, is_protection_error,
}
use unified_trading_executio.Trailing.Routing.{NativeTrailingResult}
use unified_trading_executio.Trailing.Legs.{open_leg, has_id, recovery_identity}
use unified_trading_executio.Trailing.Manager.Desk.{
  Venue, trailing_recovered, trailing_integrity_restore, Step, ◌>>=◌, ◌>>◌, give, require_ready,
  read_clock, get_trailing_state, upsert_trailing_state, publish, write_audit, reserve,
  instrument_spec, may_reduce, is_degraded,
}
use unified_trading_executio.Trailing.Manager.Failures.{record_protection_failure, degrade_now}
use unified_trading_executio.Trailing.Manager.Ticking.{found, differs}
use unified_trading_executio.Trailing.Manager.Closing.{complete_position_close}
use unified_trading_executio.Trailing.Manager.Positions.{place_newest}
use unified_trading_executio.Trailing.Manager.Native.{read_trail, native_request, place_trail}
use unified_trading_executio.Trailing.Manager.Integrity.{is_protected, check_synthetic}

-- `next(item for item in legs if item.position_id == state.position_id)`
abbrev pub leg_of : (position_id : Ident) → List Position → Option Position
leg_of i [] = none
leg_of i (p ∷ ps) = if has_id i p then some p else leg_of i ps

abbrev pub is_triggered : TrailingPhase → Bool
is_triggered triggered = true
is_triggered _ = false

-- The state with the platform's view of its trailing stop.
abbrev pub synced :
    TrailingState → NativeTrailingResult → (recovered : Bool) → (now : DateTime) → TrailingState
synced s n recovered now = record s {
  phase = if is_triggered s.phase then triggered else if recovered then armed else s.phase;
  current_stop = n.current_stop;
  failure_count = if recovered then 0 else s.failure_count;
  last_error = if recovered then none else s.last_error;
  updated_at = now;
}

-- The platform has the trailing stop.
unfoldable pub trail_found :
    TrailingState → NativeTrailingResult → (now : DateTime) → Step TrailingState
trail_found s n now =
    let recovered = is_degraded s.phase && is_protection_error s.last_error in
    if not recovered && not (differs n.current_stop s.current_stop) then give s else (do
      upsert_trailing_state (synced s n recovered now)
      if recovered
          then (publish (synced s n recovered now) degraded integrity_restore
              >> write_audit trailing_recovered (synced s n recovered now) s.current_stop
                  n.current_stop integrity_restore)
          else give tt
      give (synced s n recovered now))

-- The state once its trailing stop is placed again.
abbrev pub rearmed : TrailingState → NativeTrailingResult → (now : DateTime) → TrailingState
rearmed s n now = record s {
  phase = if is_triggered s.phase then triggered else armed;
  native_id = some n.native_id;
  current_stop = n.current_stop;
  activated = true;
  failure_count = 0;
  last_error = none;
  updated_at = now;
}

-- `phase in (ARMED, TRIGGERED)`, for one of the protected phases: placing again does not change it.
abbrev pub keeps_phase : TrailingPhase → Bool
keeps_phase armed = true
keeps_phase triggered = true
keeps_phase _ = false

abbrev pub after_rearming :
    Venue → TrailingState → (now : DateTime) → Result NativeTrailingResult → Step TrailingState
after_rearming v s now (err e) = degrade_now v s (rearm_raised e)
after_rearming v s now (ok n) = do
  upsert_trailing_state (rearmed s n now)
  (if keeps_phase s.phase then give tt else publish (rearmed s n now) s.phase integrity_restore)
  write_audit trailing_integrity_restore (rearmed s n now) s.current_stop n.current_stop
      native_rearmed
  give (rearmed s n now)

-- The trailing stop is placed again.
unfoldable pub rearm : Venue → TrailingState → Position → (now : DateTime) → Step TrailingState
rearm v s leg now =
    if not (may_reduce v s.instrument) then degrade_now v s trail_missing_halted else (do
      granted ← reserve v
      if granted
          then (do
            placed ← attempt (pure (native_request s leg) >>= place_trail v)
            after_rearming v s now placed)
          else give s)

abbrev pub after_trail_answer :
    Venue
    → TrailingState
    → Position
    → (now : DateTime) → Result (Option NativeTrailingResult)
    → Step TrailingState
after_trail_answer v s leg now (err e) = record_protection_failure v s (trail_read_raised e)
after_trail_answer v s leg now (ok none) = rearm v s leg now
after_trail_answer v s leg now (ok (some n)) = trail_found s n now

abbrev pub read_known_trail :
    Venue → TrailingState → Option Ident → Step (Option NativeTrailingResult)
read_known_trail v s none = give none
read_known_trail v s (some i) = read_trail v s.instrument i

abbrev pub after_identity :
    Venue → TrailingState → Position → (now : DateTime) → Option IdentityNote → Step TrailingState
after_identity v s leg now (some n) = degrade_now v s (identity_lost n)
after_identity v s leg now none = do
  answer ← attempt (read_known_trail v s s.native_id)
  after_trail_answer v s leg now answer

abbrev pub after_spec :
    Venue → TrailingState → Position → (now : DateTime) → Result InstrumentSpec → Step TrailingState
after_spec v s leg now (err e) = record_protection_failure v s (spec_raised e)
after_spec v s leg now (ok rules) =
    after_identity v s leg now (recovery_identity s leg rules.tick_size).0

abbrev pub check_open_leg :
    Venue → TrailingState → (now : DateTime) → Option Position → Step TrailingState
check_open_leg v s now none = complete_position_close v s position_closed now
check_open_leg v s now (some leg) = do
  rules ← attempt (instrument_spec v s.instrument)
  after_spec v s leg now rules

-- `_check_native_integrity`, with the positions of the instrument that the store has.
unfoldable pub check_native : Venue → (legs : List Position) → TrailingState → Step TrailingState
check_native v legs s =
    if not (is_protected s.phase)
    then give s
    else (do now ← read_clock v; check_open_leg v s now (open_leg (leg_of s.position_id legs)))

abbrev pub check_mode :
    TrailingMode → Venue → (legs : List Position) → TrailingState → Step TrailingState
check_mode native v legs s = check_native v legs s
check_mode synthetic v legs s = check_synthetic v s
check_mode auto v legs s = give s

abbrev pub check_known :
    Venue → (legs : Instrument → List Position) → Option TrailingState → Step (Option TrailingState)
check_known v legs none = give none
check_known v legs (some s) = found (check_mode s.mode v (legs s.instrument) s)

-- `check_integrity`
unfoldable pub check_integrity :
    Venue
    → (legs : Instrument → List Position) → (trailing_id : Ident) → Step (Option TrailingState)
check_integrity v legs i = do require_ready v; s ← get_trailing_state i; check_known v legs s

-- `StateStore.list_trailing_states`, for the active phases of all instruments.
unfoldable pub all_active : Dict Ident TrailingState → List TrailingState
all_active [] = []
all_active ((_, s) ∷ d) =
    let rest = all_active d in if is_active_phase s.phase then place_newest s rest else rest

-- `list(active_only=True)`
unfoldable pub list_all_active : Venue → Step (List TrailingState)
list_all_active v = require_ready v >> λ m. (m, ok (all_active m.states))

-- `get`
unfoldable pub get : Venue → (trailing_id : Ident) → Step (Option TrailingState)
get v i = require_ready v >> get_trailing_state i

abbrev pub check_each :
    Venue → (legs : Instrument → List Position) → List TrailingState → Step (Unit {0})
check_each v legs [] = give tt
check_each v legs (s ∷ ss) =
    attempt (check_integrity v legs s.trailing_id) >>= λ _. check_each v legs ss

-- `integrity_pass`
unfoldable pub integrity_pass : Venue → (legs : Instrument → List Position) → Step (Unit {0})
integrity_pass v legs = require_ready v >> (list_all_active v >>= check_each v legs)
