-- ===== src/Examples/OfEngine.antt =====
-- A halted pair whose position agrees again, or not.
use unified_trading_executio.Base.{◌≡◌, refl, false, none, some, List, [], ◌∷◌, contains, ok}
use unified_trading_executio.Types.{InstrumentId, instrument_key, automatic}
use unified_trading_executio.Halt.{HaltScope, HaltStateMachine}
use unified_trading_executio.Halt.Invariant.{IsValid}
use unified_trading_executio.Engine.{HaltDesk, Disagreement, is_mismatched, manage_halt_state}
use unified_trading_executio.Engine.Halts.{manage_halt_state_exact}
use unified_trading_executio.Examples.Samples.{pair, halt_config}

-- The pair and the account are halted.
abbrev halted_machine : HaltStateMachine
halted_machine = record {
  config = record halt_config { clear_mode = automatic };
  instrument_halts =
      (
        pair.identity,
        record { scope = HaltScope.instrument; instrument = some pair; reason = 1; detail = 2 },
      )
      ∷ [];
  account_halted =
      some (record { scope = HaltScope.account; instrument = none; reason = 3; detail = 4 });
}

abbrev desk : HaltDesk
desk = record { machine = halted_machine; effects = [] }

halted_machine-IsValid : IsValid halted_machine
halted_machine-IsValid = record {
  keys_once = (refl, tt);
  filed = ((refl, pair, refl, refl), tt);
  account_filed = refl;
}

abbrev disagreements : List Disagreement
disagreements = record { instrument = pair; reason = 5; detail = 6 } ∷ []

manage_halt_state_exact_example :
    (after : HaltDesk) × (manage_halt_state disagreements false desk ≡ ok after)
    × ((k : InstrumentId)
        → contains k after.machine.instrument_halts ≡ is_mismatched k disagreements)
    × (after.machine.account_halted ≡ halted_machine.account_halted)
manage_halt_state_exact_example =
    manage_halt_state_exact disagreements desk halted_machine-IsValid refl refl
