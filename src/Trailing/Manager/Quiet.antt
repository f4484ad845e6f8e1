-- ===== src/Trailing/Manager/Quiet.antt =====
-- The steps of the trailing manager that leave the rows of the states as they are.
use unified_trading_executio.Base.{
  ℕ, zero, suc, ◌≡◌, refl, ◌∙◌, Bool, true, false, Option, none, some, Result, ok, err, attempt,
  proceed, lookup, if◌then◌else◌, pure, not, trailing_state, arith,
}
use unified_trading_executio.Decimal.{Decimal}
use unified_trading_executio.Types.{Ident, InstrumentId, Instrument, InstrumentSpec, instrument_key}
use unified_trading_executio.Trailing.{TrailingPhase, TrailingState, Reason, Detail}
use unified_trading_executio.Trailing.Manager.{
  Venue, Call, AuditType, TrailingManager, Step, Protection, Verdict, confirmed, denied, confirm,
  confirm_stop, confirm_levels, ◌>>=◌, ◌>>◌, give, publish, write_audit, read_clock, reserve, ask,
  read_protection, instrument_spec, spec_or_fetch, remember, modify_protection, check_level_price,
  gap_audit, announce_degraded, bump_fetch, bump_atr, reset_fetch, reset_atr, is_allowed_transition,
  ensure_transition_allowed,
}
use unified_trading_executio.Trailing.Manager.Tracking.{
  Leaves, IsQuiet, IsTracking, check-IsTracking,
}

pub publish-IsQuiet : (s : TrailingState) (p : TrailingPhase) (r : Reason) → IsQuiet (publish s p r)
unfolding publish
publish-IsQuiet s p r = record { same = λ m. refl }

pub audit-IsQuiet :
    (type : AuditType) (s : TrailingState) (previous current : Option Decimal) (r : Reason)
    → IsQuiet (write_audit type s previous current r)
unfolding write_audit
audit-IsQuiet type s previous current r = record { same = λ m. refl }

pub clock-IsQuiet : (v : Venue) → IsQuiet (read_clock v)
unfolding read_clock
clock-IsQuiet v = record { same = λ m. refl }

pub announce-IsQuiet : (s t : TrailingState) (r : Reason) → IsQuiet (announce_degraded s t r)
unfolding announce_degraded publish write_audit
announce-IsQuiet s t r = record { same = λ m. refl }

pub bump_fetch-IsQuiet : (i : Ident) → IsQuiet (bump_fetch i)
unfolding bump_fetch
bump_fetch-IsQuiet i = record { same = λ m. refl }

pub bump_atr-IsQuiet : (i : Ident) → IsQuiet (bump_atr i)
unfolding bump_atr
bump_atr-IsQuiet i = record { same = λ m. refl }

pub reset_fetch-IsQuiet : (i : Ident) → IsQuiet (reset_fetch i)
unfolding reset_fetch
reset_fetch-IsQuiet i = record { same = λ m. refl }

pub reset_atr-IsQuiet : (i : Ident) → IsQuiet (reset_atr i)
unfolding reset_atr
reset_atr-IsQuiet i = record { same = λ m. refl }

pub reserve-IsQuiet : (v : Venue) → IsQuiet (reserve v)
unfolding reserve
reserve-IsQuiet v = record { same = λ m. refl }

pub ask-IsQuiet : (v : Venue) (c : Call) → IsQuiet (ask v c)
unfolding ask
ask-IsQuiet v c = record { same = λ m. refl }

pub read-IsQuiet : (v : Venue) (s : TrailingState) → IsQuiet (read_protection v s)
unfolding read_protection
read-IsQuiet v s = record { same = λ m. refl }

module _ {V : Type 0} {view : TrailingManager → V} where
  pub attempt-Leaves : {A : Type 0} (step : Step A) → Leaves view step → Leaves view (attempt step)
  unfolding attempt
  attempt-Leaves step q = record { same = q.same }

  pub give-Leaves : {A : Type 0} (a : A) → Leaves view (give a)
  give-Leaves a = record { same = λ m. refl }

  pub pure-Leaves : {A : Type 0} (r : Result A) → Leaves view (pure r)
  pure-Leaves r = record { same = λ m. refl }

  proceed-same :
      {A B : Type 0} (m : TrailingManager) (run : TrailingManager × Result A) (rest : A → Step B)
      → view run.0 ≡ view m
      → ((a : A) → Leaves view (rest a))
      → view (proceed run rest).0 ≡ view m
  proceed-same m (n, ok a) rest same q = (q a).same n ∙ same
  proceed-same m (n, err e) rest same q = same

  pub >>=-Leaves :
      {A B : Type 0} (step : Step A) (rest : A → Step B)
      → Leaves view step
      → ((a : A) → Leaves view (rest a))
      → Leaves view (step >>= rest)
  >>=-Leaves step rest q h = record { same = λ m. proceed-same m (step m) rest (q.same m) h }

  pub if-Leaves :
      {A : Type 0} (b : Bool) (x y : Step A)
      → Leaves view x
      → Leaves view y
      → Leaves view (if b then x else y)
  if-Leaves true x y p q = p
  if-Leaves false x y p q = q

  verdict-Leaves :
      {A : Type 0} (w : Verdict A) (rest : Option Detail → Step (Verdict A))
      → ((d : Option Detail) → Leaves view (rest d))
      → Leaves view {A = Verdict A}
          (elim w [ confirmed a ↦ give (confirmed a) | denied d ↦ rest d ])
  verdict-Leaves (confirmed a) rest q = give-Leaves (confirmed a)
  verdict-Leaves (denied d) rest q = q d

  pub confirm-Leaves :
      {A : Type 0} (v : Venue) (s : TrailingState) (judge : Result (Option Protection) → Verdict A)
      → Leaves view (read_protection v s)
      → (tries : ℕ) (last : Option Detail) → Leaves view (confirm v s judge tries last)
  unfolding confirm
  confirm-Leaves v s judge read zero last = give-Leaves (denied last)
  confirm-Leaves v s judge read (suc n) last =
      >>=-Leaves _ _ (attempt-Leaves _ read)
        (λ answer. verdict-Leaves (judge answer) _ (confirm-Leaves v s judge read n))

pub gap_audit-IsQuiet :
    (v : Venue) (s : TrailingState) (previous current : Option Decimal) (r : Reason)
    → IsQuiet (gap_audit v s previous current r)
unfolding gap_audit
gap_audit-IsQuiet v s previous current r =
    if-Leaves (v.protection_capability s.instrument).reprice_gap _ _
      (audit-IsQuiet _ s previous current r) (give-Leaves tt)

pub modify-IsQuiet :
    (v : Venue) (s : TrailingState) (take_profit stop : Option Decimal)
    → IsQuiet (modify_protection v s take_profit stop)
unfolding modify_protection
modify-IsQuiet v s take_profit stop =
    >>=-Leaves _ _ (pure-Leaves (check_level_price take_profit))
      (λ _. >>=-Leaves _ _ (pure-Leaves (check_level_price stop)) (λ _. ask-IsQuiet v _))

remember_same :
    (i : InstrumentId) (m : TrailingManager) (r : Result InstrumentSpec)
    → (remember i m r).0.states ≡ m.states
remember_same i m (ok spec) = refl
remember_same i m (err e) = refl

spec_same :
    (v : Venue) (i : Instrument) (m : TrailingManager) (known : Option InstrumentSpec)
    → (spec_or_fetch v i m known).0.states ≡ m.states
spec_same v i m (some spec) = refl
spec_same v i m none = remember_same i.identity _ (v.instrument_spec m.calls i)

pub spec-IsQuiet : (v : Venue) (i : Instrument) → IsQuiet (instrument_spec v i)
unfolding instrument_spec
spec-IsQuiet v i = record { same = λ m. spec_same v i m (lookup i.identity m.instrument_specs) }

pub confirm_stop-IsQuiet :
    (v : Venue) (s : TrailingState) (expected tick : Decimal)
    → IsQuiet (confirm_stop v s expected tick)
unfolding confirm_stop
confirm_stop-IsQuiet v s expected tick = confirm-Leaves v s _ (read-IsQuiet v s) 2 none

pub confirm_levels-IsQuiet :
    (v : Venue) (s : TrailingState) (stop take_profit : Option Decimal) (tick : Decimal)
    → IsQuiet (confirm_levels v s stop take_profit tick)
unfolding confirm_levels
confirm_levels-IsQuiet v s stop take_profit tick = confirm-Leaves v s _ (read-IsQuiet v s) 2 none

-- A transition that is not allowed raises, and nothing follows.
pub ensure-IsTracking :
    (R : TrailingState → TrailingState → Type 0) (s : TrailingState) (p q : TrailingPhase)
    (rest : Step TrailingState)
    → R s s
    → (is_allowed_transition p q ≡ true → IsTracking R s rest)
    → IsTracking R s (ensure_transition_allowed p q >> rest)
unfolding ensure_transition_allowed
ensure-IsTracking R s p q rest r h =
    check-IsTracking R s (not (is_allowed_transition p q)) trailing_state rest r
      (λ e. h (ground arith))

pub ensure-IsQuiet : (p q : TrailingPhase) → IsQuiet (ensure_transition_allowed p q)
unfolding ensure_transition_allowed
ensure-IsQuiet p q = record { same = λ m. refl }
