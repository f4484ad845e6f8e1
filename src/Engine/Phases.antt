-- ===== src/Engine/Phases.antt =====
-- The phases of the halt management of `engine.py`: what each leaves halted.
use unified_trading_executio.Base.{
  ◌≡◌, refl, sym, ap, subst, ◌∙◌, Bool, true, false, not, ◌&&◌, ◌||◌, Option, none, some, is_some,
  List, [], ◌∷◌, ok, arith, Bool-cases, Option-cases, inl, inr, Dict, contains, insert, erase,
  IsDict, lookup-insert, lookup-erase_ne, lookup-erase_self, insert-IsDict, erase-IsDict, ◌==◌,
}
use unified_trading_executio.Types.{InstrumentId, Instrument, instrument_key, Ident, automatic}
use unified_trading_executio.Halt.{
  HaltScope, HaltEntry, HaltStateMachine, restore_halt, enter_halt, try_clear_halt, find_halt,
  may_clear, drop_halt,
}
use unified_trading_executio.Engine.{
  HaltDesk, announce, clear_halt, entered, begin_halt, Disagreement, is_mismatched, of_scope,
  release, begin_all,
}

-- The configuration that halts and clears by itself, and a dict of halts without repetition.
pub record IsReady (m : HaltStateMachine) : Type 0 where
  pub mode : m.config.clear_mode ≡ automatic
  pub enabled : m.config.auto_halt_enabled ≡ true
  pub once : IsDict m.instrument_halts

contains-erase :
    (i k : InstrumentId) (halts : Dict InstrumentId HaltEntry)
    → IsDict halts
    → contains k (erase i halts) ≡ (contains k halts && not (i == k))
contains-erase i k halts once = elim (Bool-cases (i == k)) [
  | inl same ↦
      let e = (instrument_key.beq_iff i k).0 same in
      let gone : contains k (erase i halts) ≡ false =
        subst (λ x. contains x (erase i halts) ≡ false) e
          (ap is_some (lookup-erase_self i halts once)) in
      ground arith
  | inr other ↦
      let kept =
        ap is_some
          (lookup-erase_ne i k halts (λ e. cc (sym other ∙ (instrument_key.beq_iff i k).1 e))) in
      ground arith
]

contains-absent :
    (i k : InstrumentId) (halts : Dict InstrumentId HaltEntry)
    → contains i halts ≡ false
    → contains k halts ≡ (contains k halts && not (i == k))
contains-absent i k halts absent = elim (Bool-cases (i == k)) [
  | inl same ↦
      let gone =
        subst (λ x. contains x halts ≡ false) ((instrument_key.beq_iff i k).0 same) absent in
      ground arith
  | inr other ↦ ground arith
]

contains-present :
    (i k : InstrumentId) (halts : Dict InstrumentId HaltEntry)
    → contains i halts ≡ true
    → contains k halts ≡ (contains k halts || i == k)
contains-present i k halts present = elim (Bool-cases (i == k)) [
  | inl same ↦
      let held =
        subst (λ x. contains x halts ≡ true) ((instrument_key.beq_iff i k).0 same) present in
      ground arith
  | inr other ↦ ground arith
]

contains-insert :
    (i k : InstrumentId) (e : HaltEntry) (halts : Dict InstrumentId HaltEntry)
    → contains k (insert i e halts) ≡ (contains k halts || i == k)
contains-insert i k e halts =
    let at = ap is_some (lookup-insert i k e halts) in
    elim (Bool-cases (i == k)) [ inl same ↦ ground arith | inr other ↦ ground arith ]

-- What the three phases leave: which instruments are halted, and the account as it was.
pub record IsLeft (d after : HaltDesk) (halted : InstrumentId → Bool) : Type 0 where
  pub ready : IsReady after.machine
  pub instruments : (k : InstrumentId) → contains k after.machine.instrument_halts ≡ halted k
  pub account_same : after.machine.account_halted ≡ d.machine.account_halted

module _ (d : HaltDesk) (ready : IsReady d.machine) where
  -- Clearing an instrument takes it out of the halted ones, and keeps the account.
  clear_lem :
      (i : Instrument)
      → IsLeft d
          (clear_halt HaltScope.instrument (some i) d)
          (λ k. contains k d.machine.instrument_halts && not (i.identity == k))
  unfolding clear_halt try_clear_halt find_halt may_clear drop_halt
  clear_lem i = elim (Bool-cases (contains i.identity d.machine.instrument_halts)) [
    | inl held ↦
        simp (held, ready.mode)
          (record {
            ready = record {
              mode = ready.mode;
              enabled = ready.enabled;
              once = erase-IsDict i.identity d.machine.instrument_halts ready.once;
            };
            instruments = λ k. contains-erase i.identity k d.machine.instrument_halts ready.once;
            account_same = refl;
          })
    | inr absent ↦ simp absent (record {
      ready = ready;
      instruments = λ k. contains-absent i.identity k d.machine.instrument_halts absent;
      account_same = refl;
    })
  ]

  abbrev halted_desk : Instrument → (reason detail : Ident) → HaltDesk
  halted_desk i reason detail =
      announce (entered HaltScope.instrument (some i) reason detail) (record d {
        machine = record (d.machine) {
          instrument_halts =
              insert i.identity
                (record {
                  scope = HaltScope.instrument;
                  instrument = some i;
                  reason = reason;
                  detail = detail;
                })
                d.machine.instrument_halts;
        };
      })

  -- Entering an instrument adds it to the halted ones, and keeps the account.
  begin_lem :
      (i : Instrument) (reason detail : Ident)
      → (after : HaltDesk) × (begin_halt HaltScope.instrument (some i) reason detail d ≡ ok after)
        × IsLeft d after (λ k. contains k d.machine.instrument_halts || i.identity == k)
  unfolding begin_halt enter_halt restore_halt
  begin_lem i reason detail = elim (Bool-cases (contains i.identity d.machine.instrument_halts)) [
    | inl held ↦ (
      d,
      simp (ready.enabled, held) refl,
      record {
        ready = ready;
        instruments = λ k. contains-present i.identity k d.machine.instrument_halts held;
        account_same = refl;
      },
    )
    | inr absent ↦ (
      halted_desk i reason detail,
      simp (ready.enabled, absent) refl,
      record {
        ready = record {
          mode = ready.mode;
          enabled = ready.enabled;
          once = insert-IsDict i.identity _ d.machine.instrument_halts ready.once;
        };
        instruments = λ k. contains-insert i.identity k _ d.machine.instrument_halts;
        account_same = refl;
      },
    )
  ]

abbrev pub names : InstrumentId → Option Instrument → Bool
names k none = false
names k (some i) = i.identity == k

-- The entries whose halts are cleared, by the key of an instrument.
abbrev pub is_released : List Disagreement → InstrumentId → List HaltEntry → Bool
is_released bad k [] = false
is_released bad k (e ∷ es) = names k (of_scope e.scope e.instrument bad) || is_released bad k es

both_cleared :
    (before now i es : Bool) → now ≡ (before && not i) → (now && not es) ≡ (before && not (i || es))
both_cleared before now i es h = ground arith

both_entered : (before now i es : Bool) → now ≡ (before || i) → (now || es) ≡ (before || (i || es))
both_entered before now i es h = ground arith

pub release_lem :
    (bad : List Disagreement) (es : List HaltEntry) (d : HaltDesk)
    → IsReady d.machine
    → IsLeft d
        (release bad es d)
        (λ k. contains k d.machine.instrument_halts && not (is_released bad k es))
unfolding release
release_lem bad [] d ready = record {
  ready = ready;
  instruments = λ k. ground arith;
  account_same = refl;
}
release_lem bad (e ∷ es) d ready = elim (Option-cases (of_scope e.scope e.instrument bad)) [
  | inl stays ↦ let rest = release_lem bad es d ready in rw stays rest
  | inr (i, goes) ↦
      let now = clear_lem d ready i in
      let rest = release_lem bad es (clear_halt HaltScope.instrument (some i) d) now.ready in
      rw goes (record {
        ready = rest.ready;
        instruments = λ k. rest.instruments k ∙ both_cleared _ _ _ _ (now.instruments k);
        account_same = rest.account_same ∙ now.account_same;
      })
]

pub begin_all_lem :
    (bad : List Disagreement) (d : HaltDesk)
    → IsReady d.machine
    → (after : HaltDesk) × (begin_all bad d ≡ ok after)
      × IsLeft d after (λ k. contains k d.machine.instrument_halts || is_mismatched k bad)
unfolding begin_all
begin_all_lem [] d ready =
    (d, refl, record { ready = ready; instruments = λ k. ground arith; account_same = refl })
begin_all_lem (x ∷ xs) d ready =
    let (mid, began, now) = begin_lem d ready x.instrument x.reason x.detail in
    let (after, rest, left) = begin_all_lem xs mid now.ready in
    (
      after,
      rw began rest,
      record {
        ready = left.ready;
        instruments = λ k. left.instruments k ∙ both_entered _ _ _ _ (now.instruments k);
        account_same = left.account_same ∙ now.account_same;
      },
    )
