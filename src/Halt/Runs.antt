-- ===== src/Halt/Runs.antt =====
-- Sequences of calls of the halt machine (`state/halt.py`): a halt lasts until a call that the
-- clear mode allows clears it.
use unified_trading_executio.Base.{
  ◌≡◌, refl, ap, Bool, true, false, not, Option, none, some, is_some, List, [], ◌∷◌, All, contains,
  insert, lookup-insert, lookup-erase_ne, ok, err, arith, inl, inr, ◌==◌, ◌≢◌, if_ind, ◌⊎◌,
}
use unified_trading_executio.Types.{InstrumentId, Instrument, instrument_key, Ident}
use unified_trading_executio.Halt.{
  HaltScope, HaltConfig, HaltEntry, HaltStateMachine, Outcome, fresh_machine, restore_halt,
  enter_halt, try_clear_halt, may_clear, drop_halt, can_place_order,
}
use unified_trading_executio.Halt.Invariant.{
  IsValid, After, try_clear_halt_ind, fresh-IsValid, enter_halt-IsValid, restore_halt-IsValid,
  try_clear_halt-IsValid,
}

-- A call that changes the machine.
pub data HaltCall : Type 0 where
  enter restore : HaltScope → Option Instrument → (reason detail : Ident) → HaltCall
  clear : HaltScope → Option Instrument → (clean manual_clear : Bool) → HaltCall

-- The machine after a call; one that raises leaves it as it was.
abbrev pub kept : HaltStateMachine → Outcome → HaltStateMachine
kept m (ok (m', _)) = m'
kept m (err _) = m

pub call : HaltStateMachine → HaltCall → HaltStateMachine
call m (enter scope i reason detail) = kept m (enter_halt m scope i reason detail)
call m (restore scope i reason detail) = kept m (restore_halt m scope i reason detail)
call m (clear scope i clean manual_clear) = (try_clear_halt m scope i clean manual_clear).0

pub calls : HaltStateMachine → List HaltCall → HaltStateMachine
calls m [] = m
calls m (c ∷ cs) = calls (call m c) cs

kept-IsValid :
    (m : HaltStateMachine) (o : Outcome) → IsValid m → After IsValid o → IsValid (kept m o)
kept-IsValid m (ok _) valid h = h
kept-IsValid m (err _) valid h = valid

call-IsValid : (m : HaltStateMachine) (c : HaltCall) → IsValid m → IsValid (call m c)
unfolding call
call-IsValid m (enter scope i reason detail) valid =
    kept-IsValid m _ valid (enter_halt-IsValid m valid scope i reason detail)
call-IsValid m (restore scope i reason detail) valid =
    kept-IsValid m _ valid (restore_halt-IsValid m valid scope i reason detail)
call-IsValid m (clear scope i clean manual_clear) valid =
    try_clear_halt-IsValid m valid scope i clean manual_clear

calls-IsValid_from : (m : HaltStateMachine) (cs : List HaltCall) → IsValid m → IsValid (calls m cs)
unfolding calls
calls-IsValid_from m [] valid = valid
calls-IsValid_from m (c ∷ cs) valid = calls-IsValid_from (call m c) cs (call-IsValid m c valid)

-- Whatever calls are made of a new machine, each instrument is halted at most once, every
-- instrument's entry is filed under that instrument, and the account's entry is the account's.
pub calls-IsValid :
    (config : HaltConfig) (cs : List HaltCall) → IsValid (calls (fresh_machine config) cs)
calls-IsValid config cs = calls-IsValid_from (fresh_machine config) cs (fresh-IsValid config)

-- The call does not clear the halt of `key` under the clear mode of `config`.
abbrev pub Spares : HaltConfig → InstrumentId → HaltCall → Type 0
Spares config key (clear HaltScope.instrument (some i) clean manual_clear) =
    (i.identity ≢ key) ⊎ (may_clear config.clear_mode clean manual_clear ≡ false)
Spares config key _ = Unit

module _ (config : HaltConfig) (key : InstrumentId) where
  pub record IsHeld (m : HaltStateMachine) : Type 0 where
    pub config_same : m.config ≡ config
    pub held : contains key m.instrument_halts ≡ true

  IsHeld-insert :
      (m : HaltStateMachine) (i : Instrument) (e : HaltEntry)
      → IsHeld m
      → IsHeld (record m { instrument_halts = insert i.identity e m.instrument_halts })
  IsHeld-insert m i e h = record {
    config_same = h.config_same;
    held =
        rw (lookup-insert i.identity key e m.instrument_halts)
          (if_ind (λ o. is_some o ≡ true) (i.identity == key) refl h.held);
  }

  restore_halt-IsHeld :
      (m : HaltStateMachine) (scope : HaltScope) (i : Option Instrument) (reason detail : Ident)
      → IsHeld m
      → IsHeld (kept m (restore_halt m scope i reason detail))
  unfolding restore_halt
  restore_halt-IsHeld m HaltScope.account i reason detail h =
      if_ind (λ o. IsHeld (kept m o)) (is_some m.account_halted) h
        (record { config_same = h.config_same; held = h.held })
  restore_halt-IsHeld m HaltScope.instrument none reason detail h = h
  restore_halt-IsHeld m HaltScope.instrument (some i) reason detail h =
      if_ind (λ o. IsHeld (kept m o)) (contains i.identity m.instrument_halts) h
        (IsHeld-insert m i _ h)

  drop_halt-IsHeld :
      (m : HaltStateMachine) (i : Instrument)
      → i.identity ≢ key
      → IsHeld m
      → IsHeld (drop_halt m HaltScope.instrument (some i))
  unfolding drop_halt
  drop_halt-IsHeld m i other h = record {
    config_same = h.config_same;
    held = rw (lookup-erase_ne i.identity key m.instrument_halts other) h.held;
  }

  drop_account-IsHeld :
      (m : HaltStateMachine) (i : Option Instrument)
      → IsHeld m
      → IsHeld (drop_halt m HaltScope.account i)
  unfolding drop_halt
  drop_account-IsHeld m i h = record { config_same = h.config_same; held = h.held }

  drop_none-IsHeld :
      (m : HaltStateMachine) → IsHeld m → IsHeld (drop_halt m HaltScope.instrument none)
  unfolding drop_halt
  drop_none-IsHeld m h = h

  clear-IsHeld :
      (m : HaltStateMachine) (scope : HaltScope) (i : Option Instrument) (clean manual_clear : Bool)
      → Spares config key (clear scope i clean manual_clear)
      → IsHeld m
      → IsHeld (try_clear_halt m scope i clean manual_clear).0
  clear-IsHeld m HaltScope.account i clean manual_clear spared h =
      try_clear_halt_ind IsHeld m HaltScope.account i clean manual_clear h
        (λ _. drop_account-IsHeld m i h)
  clear-IsHeld m HaltScope.instrument none clean manual_clear spared h =
      try_clear_halt_ind IsHeld m HaltScope.instrument none clean manual_clear h
        (λ _. drop_none-IsHeld m h)
  clear-IsHeld m HaltScope.instrument (some i) clean manual_clear spared h =
      try_clear_halt_ind IsHeld m HaltScope.instrument (some i) clean manual_clear h λ allowed.
        elim spared [
          | inl other ↦ drop_halt-IsHeld m i other h
          | inr forbidden ↦
              cc (ap (λ (c : HaltConfig). may_clear c.clear_mode clean manual_clear) h.config_same)
        ]

  call-IsHeld :
      (m : HaltStateMachine) (c : HaltCall) → Spares config key c → IsHeld m → IsHeld (call m c)
  unfolding call enter_halt
  call-IsHeld m (enter scope i reason detail) spared h =
      if_ind (λ o. IsHeld (kept m o)) (not m.config.auto_halt_enabled) h
        (restore_halt-IsHeld m scope i reason detail h)
  call-IsHeld m (restore scope i reason detail) spared h =
      restore_halt-IsHeld m scope i reason detail h
  call-IsHeld m (clear scope i clean manual_clear) spared h =
      clear-IsHeld m scope i clean manual_clear spared h

  calls-IsHeld :
      (m : HaltStateMachine) (cs : List HaltCall)
      → All (Spares config key) cs
      → IsHeld m
      → IsHeld (calls m cs)
  unfolding calls
  calls-IsHeld m [] spared h = h
  calls-IsHeld m (c ∷ cs) spared h =
      calls-IsHeld (call m c) cs spared.1 (call-IsHeld m c spared.0 h)

-- A halted instrument stays halted, and takes no order that is not reduce-only, through any calls
-- none of which clears its halt as the clear mode allows.
pub halt_lasts :
    (m : HaltStateMachine) (i : Instrument) (cs : List HaltCall)
    → contains i.identity m.instrument_halts ≡ true
    → All (Spares m.config i.identity) cs
    → (contains i.identity (calls m cs).instrument_halts ≡ true)
      × (can_place_order (calls m cs) i false ≡ false)
unfolding can_place_order
halt_lasts m i cs held spared =
    let h =
      calls-IsHeld m.config i.identity m cs spared (record { config_same = refl; held = held }) in
    (h.held, ground (arith, h.held))
