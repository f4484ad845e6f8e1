-- ===== src/Engine/Halts.antt =====
-- What the halt management of `engine.py` leaves halted.
use unified_trading_executio.Base.{
  ◌≡◌, refl, sym, ap, ◌∙◌, Bool, true, false, not, ◌&&◌, ◌||◌, Option, none, some, List, [], ◌∷◌,
  ◌++◌, map, ok, arith, Bool-cases, inl, inr, Dict, contains, Entries, ◌==◌,
}
use unified_trading_executio.Types.{InstrumentId, Instrument, instrument_key, automatic}
use unified_trading_executio.Halt.{HaltScope, HaltEntry, active_halts, account_entries}
use unified_trading_executio.Halt.Invariant.{IsFiled, IsAccountEntry, IsValid}
use unified_trading_executio.Engine.{
  HaltDesk, Disagreement, is_mismatched, of_scope, release, manage_halt_state,
}
use unified_trading_executio.Engine.Phases.{IsReady, names, is_released, release_lem, begin_all_lem}

names_lem :
    (bad : List Disagreement) (k : InstrumentId) (i : Instrument)
    → names k (of_scope HaltScope.instrument (some i) bad)
      ≡ ((i.identity == k) && not (is_mismatched k bad))
names_lem bad k i = elim (Bool-cases (i.identity == k)) [
  | inl same ↦
      let e = (instrument_key.beq_iff i.identity k).0 same in
      let m = ap (λ x. is_mismatched x bad) e in ground arith
  | inr other ↦ ground arith
]

one_more : (a c n x y : Bool) → x ≡ (a && n) → y ≡ (c && n) → (x || y) ≡ ((a || c) && n)
one_more a c n x y h g = ground arith

contains-cons :
    (j k : InstrumentId) (e : HaltEntry) (halts : Dict InstrumentId HaltEntry)
    → contains k ((j, e) ∷ halts) ≡ (j == k || contains k halts)
contains-cons j k e halts = ground arith

left_over : (c r out m : Bool) → r ≡ (c && not out) → out ≡ (c && not m) → (r || m) ≡ m
left_over c r out m h g = ground arith

-- The entries of the machine: an instrument is released exactly when it is halted and not mismatched.
released-Entries :
    (bad : List Disagreement) (k : InstrumentId) (halts : Dict InstrumentId HaltEntry)
    (rest : List HaltEntry)
    → Entries IsFiled halts
    → is_released bad k rest ≡ false
    → is_released bad k (map (λ kv. kv.1) halts ++ rest)
      ≡ (contains k halts && not (is_mismatched k bad))
released-Entries bad k [] rest filed none_left = none_left
released-Entries bad k ((j, e) ∷ halts) rest filed none_left =
    let more = released-Entries bad k halts rest filed.1 none_left in
    let (scoped, i, held, keyed) = filed.0 in
    let here : names k (of_scope e.scope e.instrument bad)
        ≡ ((j == k) && not (is_mismatched k bad)) =
      rw (scoped, held, ← keyed) (names_lem bad k i) in
    one_more (j == k) (contains k halts) (not (is_mismatched k bad)) _ _ here more
    ∙ ap (λ b. b && not (is_mismatched k bad)) (sym (contains-cons j k e halts))

released_account :
    (bad : List Disagreement) (k : InstrumentId) (account : Option HaltEntry)
    → IsAccountEntry account
    → is_released bad k (account_entries account) ≡ false
released_account bad k none h = refl
released_account bad k (some e) h = rw h refl

-- In the automatic mode, with halts enabled, a pass that is not clean leaves exactly those instruments
-- halted whose positions disagree, whatever was halted before, and it keeps the halt of the account.
pub manage_halt_state_exact :
    (bad : List Disagreement) (d : HaltDesk)
    → IsValid d.machine
    → d.machine.config.clear_mode ≡ automatic
    → d.machine.config.auto_halt_enabled ≡ true
    → (after : HaltDesk) × (manage_halt_state bad false d ≡ ok after)
      × ((k : InstrumentId) → contains k after.machine.instrument_halts ≡ is_mismatched k bad)
      × (after.machine.account_halted ≡ d.machine.account_halted)
unfolding manage_halt_state active_halts
manage_halt_state_exact bad d valid mode enabled =
    let ready : IsReady d.machine = record {
      mode = mode;
      enabled = enabled;
      once = valid.keys_once;
    } in
    let freed = release_lem bad (active_halts d.machine) d ready in
    let (after, began, left) =
      begin_all_lem bad (release bad (active_halts d.machine) d) freed.ready in
    (
      after,
      rw began refl,
      (λ k.
          left.instruments k
          ∙ left_over _ _ _ _ (freed.instruments k) (
              released-Entries bad k d.machine.instrument_halts
                (account_entries d.machine.account_halted) valid.filed
                (released_account bad k d.machine.account_halted valid.account_filed))),
      left.account_same ∙ freed.account_same,
    )
