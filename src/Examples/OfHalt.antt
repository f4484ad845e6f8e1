-- ===== src/Examples/OfHalt.antt =====
-- Halts of the pair, and of the account.
use unified_trading_executio.Base.{
  ◌≡◌, refl, inr, true, false, some, none, List, [], ◌∷◌, contains, ok,
}
use unified_trading_executio.Types.{instrument_key, InstrumentId-discrete}
use unified_trading_executio.Halt.{
  HaltStateMachine, HaltScope, fresh_machine, restore_halt, enter_halt, may_clear, can_place_order,
}
use unified_trading_executio.Halt.Invariant.{IsValid}
use unified_trading_executio.Halt.Runs.{HaltCall, enter, clear, calls, calls-IsValid, halt_lasts}
use unified_trading_executio.Examples.Samples.{pair, halt_config}

-- The pair is halted, an automatic clear is tried under the manual mode, and the account is halted.
abbrev script : List HaltCall
script =
    enter HaltScope.instrument (some pair) 1 2
    ∷ clear HaltScope.instrument (some pair) true false
    ∷ enter HaltScope.account none 3 4
    ∷ []

calls-IsValid_example : IsValid (calls (fresh_machine halt_config) script)
calls-IsValid_example = calls-IsValid halt_config script

abbrev halted_pair : HaltStateMachine
halted_pair = record (fresh_machine halt_config) {
  instrument_halts =
      (
        pair.identity,
        record { scope = HaltScope.instrument; instrument = some pair; reason = 1; detail = 2 },
      )
      ∷ [];
}

pair_halted : contains pair.identity halted_pair.instrument_halts ≡ true
unfolding InstrumentId-discrete
pair_halted = refl

cannot_clear : may_clear halted_pair.config.clear_mode true false ≡ false
unfolding may_clear
cannot_clear = refl

abbrev later : List HaltCall
later = clear HaltScope.instrument (some pair) true false ∷ enter HaltScope.account none 3 4 ∷ []

halt_lasts_example :
    (contains pair.identity (calls halted_pair later).instrument_halts ≡ true)
    × (can_place_order (calls halted_pair later) pair false ≡ false)
halt_lasts_example = halt_lasts halted_pair pair later pair_halted (inr cannot_clear, (tt, tt))

pair_entered :
    enter_halt (fresh_machine halt_config) HaltScope.instrument (some pair) 1 2
    ≡ ok (halted_pair, true)
unfolding enter_halt restore_halt
pair_entered = refl

halted_pair-IsValid : IsValid halted_pair
halted_pair-IsValid = record {
  keys_once = (refl, tt);
  filed = ((refl, pair, refl, refl), tt);
  account_filed = tt;
}
