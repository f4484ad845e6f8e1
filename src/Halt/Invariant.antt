-- ===== src/Halt/Invariant.antt =====
-- The invariant of the halt machine (`state/halt.py`): each instrument is halted at most once, an
-- instrument's entry is filed under that instrument, and the account's entry is the account's.
use unified_trading_executio.Base.{
  ◌≡◌, refl, Bool, true, Option, none, some, IsDict, Entries, Entries-insert, Entries-erase,
  Bool-cases, not, if_ind, inl, inr, is_some, insert-IsDict, erase-IsDict, insert, contains, ok,
  err,
}
use unified_trading_executio.Types.{InstrumentId, Instrument, instrument_key, Ident}
use unified_trading_executio.Halt.{
  HaltScope, HaltEntry, HaltStateMachine, HaltConfig, Outcome, restore_halt, enter_halt,
  try_clear_halt, find_halt, may_clear, drop_halt, fresh_machine,
}

abbrev pub IsFiled : InstrumentId → HaltEntry → Type 0
IsFiled key e =
    (e.scope ≡ HaltScope.instrument)
    × (i : Instrument) × (e.instrument ≡ some i)
    × (i.identity ≡ key)

abbrev pub IsAccountEntry : Option HaltEntry → Type 0
IsAccountEntry none = Unit
IsAccountEntry (some e) = e.scope ≡ HaltScope.account

pub record IsValid (m : HaltStateMachine) : Type 0 where
  pub keys_once : IsDict m.instrument_halts
  pub filed : Entries IsFiled m.instrument_halts
  pub account_filed : IsAccountEntry m.account_halted

-- A machine starts out valid.
pub fresh-IsValid : (config : HaltConfig) → IsValid (fresh_machine config)
fresh-IsValid config = record { keys_once = tt; filed = tt; account_filed = tt }

-- What holds of the machine after a call that did not raise.
abbrev pub After : (HaltStateMachine → Type 0) → Outcome → Type 0
After P (ok (m, _)) = P m
After P (err _) = Unit

-- A property of the machine and of the machine without the named halt holds after a clear.
pub try_clear_halt_ind {ℓ} :
    (Q : HaltStateMachine → Type ℓ) (m : HaltStateMachine) (scope : HaltScope)
    (i : Option Instrument) (clean manual_clear : Bool)
    → Q m
    → (may_clear m.config.clear_mode clean manual_clear ≡ true → Q (drop_halt m scope i))
    → Q (try_clear_halt m scope i clean manual_clear).0
unfolding try_clear_halt
try_clear_halt_ind Q m scope i clean manual_clear same dropped =
    elim (Bool-cases (is_some (find_halt m scope i))) [
      | inr absent ↦ simp absent same
      | inl held ↦ elim (Bool-cases (may_clear m.config.clear_mode clean manual_clear)) [
        | inl allowed ↦ simp (held, allowed) (dropped allowed)
        | inr forbidden ↦ simp (held, forbidden) same
      ]
    ]

module _ (m : HaltStateMachine) (valid : IsValid m) where
  insert-IsValid :
      (e : HaltEntry) (i : Instrument)
      → IsFiled i.identity e
      → IsValid (record m { instrument_halts = insert i.identity e m.instrument_halts })
  insert-IsValid e i f = record {
    keys_once = insert-IsDict i.identity e m.instrument_halts valid.keys_once;
    filed = Entries-insert IsFiled i.identity e m.instrument_halts f valid.filed;
    account_filed = valid.account_filed;
  }

  enter_instrument-IsValid :
      (i : Option Instrument) (reason detail : Ident)
      → After IsValid (restore_halt m HaltScope.instrument i reason detail)
  unfolding restore_halt
  enter_instrument-IsValid none reason detail = tt
  enter_instrument-IsValid (some i) reason detail =
      elim (Bool-cases (contains i.identity m.instrument_halts)) [
        | inl old ↦ rw old valid
        | inr new ↦ rw new (insert-IsValid _ i (refl, i, refl, refl))
      ]

  pub restore_halt-IsValid :
      (scope : HaltScope) (i : Option Instrument) (reason detail : Ident)
      → After IsValid (restore_halt m scope i reason detail)
  unfolding restore_halt
  restore_halt-IsValid HaltScope.instrument i reason detail =
      enter_instrument-IsValid i reason detail
  restore_halt-IsValid HaltScope.account i reason detail =
      elim (Bool-cases (is_some m.account_halted)) [
        | inl old ↦ rw old valid
        | inr new ↦
            rw new
              (record { keys_once = valid.keys_once; filed = valid.filed; account_filed = refl })
      ]

  pub enter_halt-IsValid :
      (scope : HaltScope) (i : Option Instrument) (reason detail : Ident)
      → After IsValid (enter_halt m scope i reason detail)
  unfolding enter_halt
  enter_halt-IsValid scope i reason detail =
      if_ind (After IsValid) (not m.config.auto_halt_enabled) valid
        (restore_halt-IsValid scope i reason detail)

  drop_halt-IsValid : (scope : HaltScope) (i : Option Instrument) → IsValid (drop_halt m scope i)
  unfolding drop_halt
  drop_halt-IsValid HaltScope.account i = record {
    keys_once = valid.keys_once;
    filed = valid.filed;
    account_filed = tt;
  }
  drop_halt-IsValid HaltScope.instrument none = valid
  drop_halt-IsValid HaltScope.instrument (some i) = record {
    keys_once = erase-IsDict i.identity m.instrument_halts valid.keys_once;
    filed = Entries-erase IsFiled i.identity m.instrument_halts valid.filed;
    account_filed = valid.account_filed;
  }

  pub try_clear_halt-IsValid :
      (scope : HaltScope) (i : Option Instrument) (clean manual_clear : Bool)
      → IsValid (try_clear_halt m scope i clean manual_clear).0
  try_clear_halt-IsValid scope i clean manual_clear =
      try_clear_halt_ind IsValid m scope i clean manual_clear valid (λ _. drop_halt-IsValid scope i)
