-- ===== src/Halt/Queries.antt =====
-- What entering and clearing a halt (`state/halt.py`) change, seen through the queries.
use unified_trading_executio.Base.{
  ◌≡◌, ◌≢◌, refl, sym, subst, ◌↔◌, ◌⊎◌, Bool, true, false, not, none, some, lookup, contains,
  insert, lookup-insert, lookup-erase_ne, lookup-erase_self, ok, err, arith, Bool-cases, inl, inr,
  ◌==◌,
}
use unified_trading_executio.Types.{Instrument, instrument_key, Ident}
use unified_trading_executio.Halt.{
  HaltScope, HaltEntry, HaltStateMachine, Outcome, restore_halt, enter_halt, try_clear_halt,
  find_halt, may_clear, drop_halt, can_place_order,
}
use unified_trading_executio.Halt.Invariant.{IsValid}

-- An order may be placed exactly when neither its instrument nor the account is halted, or when
-- it only reduces a position and closing orders are permitted.
pub can_place_order_iff :
    (m : HaltStateMachine) (i : Instrument) (reduce_only : Bool)
    → (can_place_order m i reduce_only ≡ true) ↔ (
        ((m.account_halted ≡ none) × (lookup i.identity m.instrument_halts ≡ none))
        ⊎ ((reduce_only ≡ true) × (m.config.closing_orders_permitted ≡ true)))
unfolding can_place_order
can_place_order_iff m i reduce_only = (λ h. ground arith, λ h. ground arith)

-- What a call that did not raise has done, by its machine and its result.
abbrev Returns : (HaltStateMachine → Bool → Type 0) → Outcome → Type 0
Returns Q (ok (m, changed)) = Q m changed
Returns Q (err _) = Unit

Returns-elim :
    (Q : HaltStateMachine → Bool → Type 0) {o : Outcome} {m : HaltStateMachine} {changed : Bool}
    → Returns Q o
    → o ≡ ok (m, changed)
    → Q m changed
Returns-elim Q h e = subst (Returns Q) e h

-- Instrument `i` is halted in `m'`, which it was not in `m` if and only if `changed`; all else is
-- as in `m`.
pub record IsEntered (m : HaltStateMachine) (i : Instrument) (m' : HaltStateMachine)
    (changed : Bool) : Type 0 where
  pub holds : contains i.identity m'.instrument_halts ≡ true
  pub reported : changed ≡ not (contains i.identity m.instrument_halts)
  pub account_same : m'.account_halted ≡ m.account_halted
  pub config_same : m'.config ≡ m.config
  pub others_same :
      (j : Instrument)
      → j.identity ≢ i.identity
      → lookup j.identity m'.instrument_halts ≡ lookup j.identity m.instrument_halts

beq_refl : (i : Instrument) → (i.identity == i.identity) ≡ true
beq_refl i = (instrument_key.beq_iff i.identity i.identity).1 refl

beq_ne : (i j : Instrument) → j.identity ≢ i.identity → (i.identity == j.identity) ≡ false
beq_ne i j h = elim (Bool-cases (i.identity == j.identity)) [
  | inl e ↦ absurd (h (sym ((instrument_key.beq_iff i.identity j.identity).0 e)))
  | inr e ↦ e
]

IsEntered-insert :
    (m : HaltStateMachine) (i : Instrument) (e : HaltEntry)
    → contains i.identity m.instrument_halts ≡ false
    → IsEntered m i (record m { instrument_halts = insert i.identity e m.instrument_halts }) true
IsEntered-insert m i e absent = record {
  holds = rw (lookup-insert i.identity i.identity e m.instrument_halts, beq_refl i);
  reported = rw absent;
  account_same = refl;
  config_same = refl;
  others_same =
      λ j other. rw (lookup-insert i.identity j.identity e m.instrument_halts, beq_ne i j other);
}

restore_halt_instrument :
    (m : HaltStateMachine) (i : Instrument) (reason detail : Ident)
    → Returns (IsEntered m i) (restore_halt m HaltScope.instrument (some i) reason detail)
unfolding restore_halt
restore_halt_instrument m i reason detail =
    elim (Bool-cases (contains i.identity m.instrument_halts)) [
      | inl old ↦ rw old (record {
        holds = old;
        reported = rw old;
        account_same = refl;
        config_same = refl;
        others_same = λ j other. refl;
      })
      | inr new ↦ rw new (IsEntered-insert m i _ new)
    ]

-- Entering an enabled halt of an instrument leaves the instrument halted, reports whether it was
-- not halted before, and changes no other instrument, not the account and not the configuration.
pub enter_halt_instrument :
    (m : HaltStateMachine) (i : Instrument) (reason detail : Ident) {m' : HaltStateMachine}
    {changed : Bool}
    → m.config.auto_halt_enabled ≡ true
    → enter_halt m HaltScope.instrument (some i) reason detail ≡ ok (m', changed)
    → IsEntered m i m' changed
unfolding enter_halt
enter_halt_instrument m i reason detail on h =
    Returns-elim (IsEntered m i) (restore_halt_instrument m i reason detail) (simp on at h)

-- Instrument `i` is not halted in `m'`; all else is as in `m`.
pub record IsCleared (m : HaltStateMachine) (i : Instrument) (m' : HaltStateMachine) : Type 0 where
  pub released : lookup i.identity m'.instrument_halts ≡ none
  pub account_same : m'.account_halted ≡ m.account_halted
  pub config_same : m'.config ≡ m.config
  pub others_same :
      (j : Instrument)
      → j.identity ≢ i.identity
      → lookup j.identity m'.instrument_halts ≡ lookup j.identity m.instrument_halts

drop_halt_instrument :
    (m : HaltStateMachine) (i : Instrument)
    → IsValid m
    → IsCleared m i (drop_halt m HaltScope.instrument (some i))
unfolding drop_halt
drop_halt_instrument m i valid = record {
  released = lookup-erase_self i.identity m.instrument_halts valid.keys_once;
  account_same = refl;
  config_same = refl;
  others_same =
      λ j other. lookup-erase_ne i.identity j.identity m.instrument_halts (λ e. other (sym e));
}

-- A call that clears the halt of an instrument either reports success, and then the instrument was
-- halted, the clear mode allowed it and only this halt is gone; or it reports none, and then
-- nothing changed, and the instrument was not halted or the clear mode forbade it.
pub try_clear_halt_instrument :
    (m : HaltStateMachine) (i : Instrument) (clean manual_clear : Bool)
    → IsValid m
    → let (m', cleared) = try_clear_halt m HaltScope.instrument (some i) clean manual_clear in
      ((cleared ≡ true)
        × (contains i.identity m.instrument_halts ≡ true)
        × (may_clear m.config.clear_mode clean manual_clear ≡ true)
        × IsCleared m i m')
      ⊎ ((cleared ≡ false)
          × (m' ≡ m)
          × ((contains i.identity m.instrument_halts ≡ false)
              ⊎ (may_clear m.config.clear_mode clean manual_clear ≡ false)))
unfolding try_clear_halt find_halt
try_clear_halt_instrument m i clean manual_clear valid =
    elim (Bool-cases (contains i.identity m.instrument_halts)) [
      | inr absent ↦ simp absent (inr (refl, refl, inl refl))
      | inl held ↦ elim (Bool-cases (may_clear m.config.clear_mode clean manual_clear)) [
        | inl allowed ↦
            simp (held, allowed) (inl (refl, refl, refl, drop_halt_instrument m i valid))
        | inr forbidden ↦ simp (held, forbidden) (inr (refl, refl, inr refl))
      ]
    ]
