-- ===== src/Halt.antt =====
-- `packages/core/src/unified_trading_execution/state/halt.py`: which instruments are halted, and
-- whether the account is. A mutation returns the new machine with the result of the method.
pub mod Invariant
pub mod Queries
pub mod Runs
use unified_trading_executio.Base.{
  Bool, true, false, not, ◌&&◌, ◌||◌, Option, none, some, is_some, List, [], ◌∷◌, ◌++◌, map, Dict,
  lookup, contains, insert, erase, Result, ok, err, value_error, if◌then◌else◌,
}
use unified_trading_executio.Types.{
  InstrumentId, Instrument, instrument_key, Ident, HaltState, active, halted, HaltClearMode,
  automatic, manual,
}

pub data HaltScope : Type 0 where
  instrument account : HaltScope

pub record HaltConfig : Type 0 where
  pub auto_halt_enabled : Bool
  pub closing_orders_permitted : Bool
  pub clear_mode : HaltClearMode

pub record HaltEntry : Type 0 where
  pub scope : HaltScope
  pub instrument : Option Instrument
  pub reason : Ident
  pub detail : Ident

pub record HaltStateMachine : Type 0 where
  pub config : HaltConfig
  pub instrument_halts : Dict InstrumentId HaltEntry
  pub account_halted : Option HaltEntry

abbrev pub fresh_machine : HaltConfig → HaltStateMachine
fresh_machine config = record { config = config; instrument_halts = []; account_halted = none }

unfoldable pub is_account_halted : HaltStateMachine → Bool
is_account_halted m = is_some m.account_halted

unfoldable pub is_instrument_halted : HaltStateMachine → Instrument → Bool
is_instrument_halted m i = contains i.identity m.instrument_halts

-- `instrument is not None and instrument in self._instrument_halts`
abbrev pub has_halt : HaltStateMachine → Option Instrument → Bool
has_halt m none = false
has_halt m (some i) = contains i.identity m.instrument_halts

unfoldable pub is_halted : HaltStateMachine → Option Instrument → Bool
is_halted m i = is_some m.account_halted || has_halt m i

unfoldable pub get_halt_state : HaltStateMachine → HaltScope → Option Instrument → HaltState
get_halt_state m account i = if is_some m.account_halted then halted else active
get_halt_state m instrument i = if has_halt m i then halted else active

unfoldable pub can_place_order : HaltStateMachine → Instrument → (reduce_only : Bool) → Bool
unfolding is_halted
can_place_order m i reduce_only =
    if not (is_halted m (some i))
    then true
    else if reduce_only && m.config.closing_orders_permitted
    then true
    else false

-- The account's halt, as a list.
abbrev pub account_entries : Option HaltEntry → List HaltEntry
account_entries none = []
account_entries (some e) = e ∷ []

unfoldable pub active_halts : HaltStateMachine → List HaltEntry
active_halts m = map (λ kv. kv.1) m.instrument_halts ++ account_entries m.account_halted

abbrev pub Outcome : Type 0
Outcome = Result (HaltStateMachine × Bool)

enter_account : HaltStateMachine → HaltEntry → Outcome
enter_account m e =
    if is_some m.account_halted
    then ok (m, false)
    else ok (record m { account_halted = some e }, true)

enter_instrument : HaltStateMachine → HaltEntry → Option Instrument → Outcome
enter_instrument m e none = err value_error
enter_instrument m e (some i) =
    if contains i.identity m.instrument_halts
    then ok (m, false)
    else ok (record m { instrument_halts = insert i.identity e m.instrument_halts }, true)

-- `enter_halt` and `restore_halt` have one body, but for the first test of `enter_halt`.
-- `restore_halt`, which does not ask whether halts are enabled.
unfoldable pub restore_halt :
    HaltStateMachine → HaltScope → Option Instrument → (reason detail : Ident) → Outcome
unfolding enter_account enter_instrument
restore_halt m account i reason detail =
    enter_account m (record { scope = account; instrument = i; reason = reason; detail = detail })
restore_halt m instrument i reason detail =
    enter_instrument m
      (record { scope = instrument; instrument = i; reason = reason; detail = detail }) i

unfoldable pub enter_halt :
    HaltStateMachine → HaltScope → Option Instrument → (reason detail : Ident) → Outcome
enter_halt m scope i reason detail =
    if not m.config.auto_halt_enabled then ok (m, false) else restore_halt m scope i reason detail

-- Whether the clear mode lets a halt be cleared.
unfoldable pub may_clear : HaltClearMode → (reconciliation_is_clean manual_clear : Bool) → Bool
may_clear automatic clean manual_clear = clean
may_clear manual clean manual_clear = manual_clear

-- The halt that a scope and an instrument name.
unfoldable pub find_halt : HaltStateMachine → HaltScope → Option Instrument → Option HaltEntry
find_halt m account i = m.account_halted
find_halt m instrument none = none
find_halt m instrument (some i) = lookup i.identity m.instrument_halts

unfoldable pub drop_halt : HaltStateMachine → HaltScope → Option Instrument → HaltStateMachine
drop_halt m account i = record m { account_halted = none }
drop_halt m instrument none = m
drop_halt m instrument (some i) = record m {
  instrument_halts = erase i.identity m.instrument_halts;
}

unfoldable pub try_clear_halt :
    HaltStateMachine
    → HaltScope
    → Option Instrument
    → (reconciliation_is_clean manual_clear : Bool) → HaltStateMachine × Bool
try_clear_halt m scope i clean manual_clear =
    if not (is_some (find_halt m scope i))
    then (m, false)
    else if not (may_clear m.config.clear_mode clean manual_clear)
    then (m, false)
    else (drop_halt m scope i, true)
