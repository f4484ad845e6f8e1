-- ===== src/Trailing/Manager/Writes.antt =====
-- What a ticker writes to the platform (`on_ticker` of `trailing/manager.py`).
use mathlib.Core.List.{append-nil}
use unified_trading_executio.Base.{
  ◌+◌, ◌≡◌, refl, ap, ◌∙◌, ◌⊎◌, inl, inr, Bool, true, false, Option, none, some, List, [], ◌∷◌,
  ◌++◌, select, select-append, Result, ok, err, if◌then◌else◌, proceed, lookup, ℕ_key,
}
use unified_trading_executio.Decimal.{Decimal, pos, ltb_ℤ}
use unified_trading_executio.Types.{
  Ident, DateTime, InstrumentId, InstrumentSpec, Instrument, instrument_key,
}
use unified_trading_executio.Trailing.{TrailingPhase, degraded, TrailingState, Reason}
use unified_trading_executio.Trailing.Manager.{
  Venue, Call, modify_position_tpsl, clear_position_tpsl, cancel_trailing_stop, place_trailing_stop,
  AuditType, TrailingManager, Step, ◌>>=◌, publish, write_audit, read_clock, upsert_trailing_state,
  reserve, read_protection, instrument_spec, spec_or_fetch, remember, gap_audit, announce_degraded,
  bump_fetch, reset_fetch, ensure_transition_allowed, is_degraded, record_protection_failure,
  protection_lost, confirm_stop, Verdict, confirmed, denied, after_verdict, after_write,
}
use unified_trading_executio.Trailing.Manager.Tracking.{Leaves}
use unified_trading_executio.Trailing.Manager.Quiet.{
  give-Leaves, >>=-Leaves, if-Leaves, confirm-Leaves,
}

-- A call that changes something at the platform.
abbrev pub is_write : Call → Bool
is_write (modify_position_tpsl _ _ _ _ _) = true
is_write (clear_position_tpsl _ _ _ _) = true
is_write (cancel_trailing_stop _ _) = true
is_write (place_trailing_stop _) = true
is_write _ = false

abbrev pub writes : TrailingManager → List Call
writes m = select is_write m.calls

-- The step writes nothing.
abbrev pub IsReading : {A : Type 0} → Step A → Type 0
IsReading = Leaves writes

-- A call that writes nothing is added.
pub added :
    (m : TrailingManager) (c : Call)
    → is_write c ≡ false
    → select is_write (m.calls ++ c ∷ []) ≡ writes m
added m c h = select-append is_write m.calls (c ∷ []) ∙ rw h (append-nil (writes m))

pub publish-IsReading :
    (s : TrailingState) (p : TrailingPhase) (r : Reason) → IsReading (publish s p r)
unfolding publish
publish-IsReading s p r = record { same = λ m. refl }

pub audit-IsReading :
    (type : AuditType) (s : TrailingState) (previous current : Option Decimal) (r : Reason)
    → IsReading (write_audit type s previous current r)
unfolding write_audit
audit-IsReading type s previous current r = record { same = λ m. refl }

pub clock-IsReading : (v : Venue) → IsReading (read_clock v)
unfolding read_clock
clock-IsReading v = record { same = λ m. refl }

pub store-IsReading : (s : TrailingState) → IsReading (upsert_trailing_state s)
unfolding upsert_trailing_state
store-IsReading s = record { same = λ m. refl }

pub announce-IsReading : (s t : TrailingState) (r : Reason) → IsReading (announce_degraded s t r)
unfolding announce_degraded publish write_audit
announce-IsReading s t r = record { same = λ m. refl }

pub bump-IsReading : (i : Ident) → IsReading (bump_fetch i)
unfolding bump_fetch
bump-IsReading i = record { same = λ m. refl }

pub reset-IsReading : (i : Ident) → IsReading (reset_fetch i)
unfolding reset_fetch
reset-IsReading i = record { same = λ m. refl }

pub ensure-IsReading : (p q : TrailingPhase) → IsReading (ensure_transition_allowed p q)
unfolding ensure_transition_allowed
ensure-IsReading p q = record { same = λ m. refl }

pub reserve-IsReading : (v : Venue) → IsReading (reserve v)
unfolding reserve
reserve-IsReading v = record { same = λ m. added m _ refl }

pub read-IsReading : (v : Venue) (s : TrailingState) → IsReading (read_protection v s)
unfolding read_protection
read-IsReading v s = record { same = λ m. added m _ refl }

remember-reads :
    (i : InstrumentId) (m : TrailingManager) (r : Result InstrumentSpec)
    → writes (remember i m r).0 ≡ writes m
remember-reads i m (ok spec) = refl
remember-reads i m (err e) = refl

spec-reads :
    (v : Venue) (i : Instrument) (m : TrailingManager) (known : Option InstrumentSpec)
    → writes (spec_or_fetch v i m known).0 ≡ writes m
spec-reads v i m (some spec) = refl
spec-reads v i m none = remember-reads i.identity _ (v.instrument_spec m.calls i) ∙ added m _ refl

pub spec-IsReading : (v : Venue) (i : Instrument) → IsReading (instrument_spec v i)
unfolding instrument_spec
spec-IsReading v i = record { same = λ m. spec-reads v i m (lookup i.identity m.instrument_specs) }

pub gap-IsReading :
    (v : Venue) (s : TrailingState) (previous current : Option Decimal) (r : Reason)
    → IsReading (gap_audit v s previous current r)
unfolding gap_audit
gap-IsReading v s previous current r =
    if-Leaves (v.protection_capability s.instrument).reprice_gap _ _
      (audit-IsReading _ s previous current r) (give-Leaves tt)

confirm-IsReading :
    (v : Venue) (s : TrailingState) (expected tick : Decimal)
    → IsReading (confirm_stop v s expected tick)
unfolding confirm_stop
confirm-IsReading v s expected tick = confirm-Leaves v s _ (read-IsReading v s) 2 none

pub failure-IsReading :
    (v : Venue) (s : TrailingState) (r : Reason) → IsReading (record_protection_failure v s r)
unfolding record_protection_failure
failure-IsReading v s r = >>=-Leaves _ _ (clock-IsReading v) (λ now.
    if-Leaves (is_degraded s.phase) _ _ (>>=-Leaves _ _ (store-IsReading _) (λ _. give-Leaves _)) (
      if-Leaves (ltb_ℤ (pos (s.failure_count + 1)) v.config.protection_failure_threshold) _ _
        (>>=-Leaves _ _ (store-IsReading _) (λ _. give-Leaves _))
        (>>=-Leaves _ _ (ensure-IsReading s.phase degraded) (λ _.
          >>=-Leaves _ _ (store-IsReading _)
            (λ _. >>=-Leaves _ _ (announce-IsReading s _ r) (λ _. give-Leaves _))))))

lost-IsReading : (v : Venue) (s : TrailingState) (r : Reason) → IsReading (protection_lost v s r)
unfolding protection_lost
lost-IsReading v s r = >>=-Leaves _ _ (gap-IsReading v s _ _ _) (λ _. failure-IsReading v s r)

verdict-IsReading :
    (v : Venue) (s : TrailingState) (activation : Option Decimal) (now : DateTime)
    (w : Verdict Decimal)
    → IsReading (after_verdict v s activation now w)
verdict-IsReading v s activation now (denied detail) = lost-IsReading v s _
verdict-IsReading v s activation now (confirmed stop) = >>=-Leaves _ _ (store-IsReading _) (λ _.
    >>=-Leaves _ _ (publish-IsReading _ _ _) (λ _.
      >>=-Leaves _ _ (gap-IsReading v _ _ _ _)
        (λ _. >>=-Leaves _ _ (audit-IsReading _ _ _ _ _) (λ _. give-Leaves _))))

pub written-IsReading :
    (v : Venue) (s : TrailingState) (spec : InstrumentSpec) (c : Decimal)
    (activation : Option Decimal) (now : DateTime) (r : Result (Unit {0}))
    → IsReading (after_write v s spec c activation now r)
written-IsReading v s spec c activation now (err e) = lost-IsReading v s _
written-IsReading v s spec c activation now (ok _) =
    >>=-Leaves _ _ (confirm-IsReading v s c spec.tick_size)
      (λ w. verdict-IsReading v s activation now w)

-- The step writes nothing, or makes one write, for which `P` holds.
pub record IsGuarded (P : Call → Type 0) {A : Type 0} (step : Step A) : Type 0 where
  pub at :
      (m : TrailingManager)
      → (writes (step m).0 ≡ writes m)
        ⊎ ((c : Call) × (writes (step m).0 ≡ writes m ++ c ∷ []) × P c)

module _ {P : Call → Type 0} where
  pub reading : {A : Type 0} (step : Step A) → IsReading step → IsGuarded P step
  reading step h = record { at = λ m. inl (h.same m) }

  pub then-at :
      {A B : Type 0} (m : TrailingManager) (run : TrailingManager × Result A) (rest : A → Step B)
      → writes run.0 ≡ writes m
      → ((a : A) → run.1 ≡ ok a → IsGuarded P (rest a))
      → (writes (proceed run rest).0 ≡ writes m)
        ⊎ ((c : Call) × (writes (proceed run rest).0 ≡ writes m ++ c ∷ []) × P c)
  then-at m (n, err e) rest same h = inl same
  then-at m (n, ok a) rest same h = elim ((h a refl).at n) [
    | inl nothing ↦ inl (nothing ∙ same)
    | inr (c, one, p) ↦ inr (c, one ∙ ap (λ xs. xs ++ c ∷ []) same, p)
  ]

  pub reads_then :
      {A B : Type 0} (step : Step A) (rest : A → Step B)
      → IsReading step
      → ((a : A) → IsGuarded P (rest a))
      → IsGuarded P (step >>= rest)
  reads_then step rest q h = record { at = λ m. then-at m (step m) rest (q.same m) (λ a _. h a) }

  writes-at :
      {A B : Type 0} (m : TrailingManager) (run : TrailingManager × Result A) (rest : A → Step B)
      → ((a : A) → IsReading (rest a))
      → (writes run.0 ≡ writes m) ⊎ ((c : Call) × (writes run.0 ≡ writes m ++ c ∷ []) × P c)
      → (writes (proceed run rest).0 ≡ writes m)
        ⊎ ((c : Call) × (writes (proceed run rest).0 ≡ writes m ++ c ∷ []) × P c)
  writes-at m (n, err e) rest q h = h
  writes-at m (n, ok a) rest q (inl same) = inl ((q a).same n ∙ same)
  writes-at m (n, ok a) rest q (inr (c, one, p)) = inr (c, (q a).same n ∙ one, p)

  pub writes_then :
      {A B : Type 0} (step : Step A) (rest : A → Step B)
      → IsGuarded P step
      → ((a : A) → IsReading (rest a))
      → IsGuarded P (step >>= rest)
  writes_then step rest h q = record { at = λ m. writes-at m (step m) rest q (h.at m) }

  pub either :
      {A : Type 0} (b : Bool) {x y : Step A}
      → (b ≡ true → IsGuarded P x)
      → (b ≡ false → IsGuarded P y)
      → IsGuarded P (if b then x else y)
  either true p q = p refl
  either false p q = q refl

pub IsGuarded-mono :
    {P Q : Call → Type 0} {A : Type 0} {step : Step A}
    → ((c : Call) → P c → Q c)
    → IsGuarded P step
    → IsGuarded Q step
IsGuarded-mono weaker h = record {
  at = λ m. elim (h.at m) [ inl same ↦ inl same | inr (c, one, p) ↦ inr (c, one, weaker c p) ];
}
