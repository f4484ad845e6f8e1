-- ===== src/Trailing/Manager/Ticking.antt =====
-- `trailing/manager.py`: what a sampled ticker does to a synthetic state, and a failure to sample one.
use unified_trading_executio.Base.{
  ◌+◌, ◌^◌, Bool, true, false, not, ◌&&◌, Option, none, some, is_some, insert, ℕ_key, pure, update,
  attempt, Result, ok, err, if◌then◌else◌,
}
use unified_trading_executio.Decimal.{Decimal, pos, eqb_ℤ, ltb_ℤ, leb_ℤ, sub_ℕ, ◌*ℤ◌}
use unified_trading_executio.Types.{Ident, DateTime, InstrumentSpec, Ticker}
use unified_trading_executio.Trailing.Types.{
  TrailingBasis, armed, TrailingState, Reason, no_price, candidate_raised, write_raised,
  unconfirmed, activation_reached, repriced, gap_start, gap_end, gap_end_failed,
  is_protection_error,
}
use unified_trading_executio.Trailing.Math.{
  update_best_basis, resolve_activation_price, is_activation_reached, candidate_stop, quantize_stop,
  respects_min_stop_distance, ratchet_accepts,
}
use unified_trading_executio.Trailing.Legs.{basis_price}
use unified_trading_executio.Trailing.Manager.Desk.{
  Venue, trailing_activated, trailing_reprice_gap, trailing_reprice, Step, ◌>>=◌, ◌>>◌, give,
  require_ready, read_clock, get_trailing_state, upsert_trailing_state, publish, write_audit,
  reserve, instrument_spec, modify_protection, is_synthetic, is_watched, may_reduce,
}
use unified_trading_executio.Trailing.Manager.Failures.{
  record_fetch_failure, recover_fetch_degraded, record_protection_failure,
}
use unified_trading_executio.Trailing.Manager.Confirming.{Verdict, confirmed, denied, confirm_stop}

-- The states that are handed back as they are: none, and one that is not synthetic or not watched.
abbrev pub when_watched :
    (TrailingState → Step (Option TrailingState))
    → Option TrailingState
    → Step (Option TrailingState)
when_watched f none = give none
when_watched f (some s) =
    if not (is_synthetic s.mode)
    then give (some s)
    else if is_watched s.phase
    then f s
    else give (some s)

-- The answer of a step on a state is the answer of the method.
abbrev pub found : Step TrailingState → Step (Option TrailingState)
found step = do s ← step; give (some s)

-- `best != state.best_basis`
abbrev pub differs : Option Decimal → Option Decimal → Bool
differs none none = false
differs none (some _) = true
differs (some _) none = true
differs (some a) (some b) = not (eqb_ℤ a b)

-- The state is stored where a value of it is new.
abbrev pub store_if : Bool → (old new : TrailingState) → Step TrailingState
store_if changed old new = if changed then (upsert_trailing_state new >> give new) else give old

-- `last_reprice_at is not None and elapsed < min_reprice_interval_seconds`, on microseconds.
abbrev pub too_early : Option DateTime → (now : DateTime) → (interval : Decimal) → Bool
too_early none now interval = false
too_early (some t) now interval = ltb_ℤ (sub_ℕ now.instant t.instant *ℤ pos (10 ^ 22)) interval

-- What a candidate must pass before the budget is asked.
unfoldable pub is_worth_writing :
    Venue → TrailingState → InstrumentSpec → (basis candidate : Decimal) → (now : DateTime) → Bool
is_worth_writing v s spec basis c now =
    not (leb_ℤ c (pos 0))
    && (respects_min_stop_distance s.side c basis spec.min_stop_distance
        && (ratchet_accepts s.side s.current_stop c s.spec.step
            && (not (
                  too_early s.last_reprice_at now
                    (v.protection_capability s.instrument).min_reprice_interval_seconds)
                && may_reduce v s.instrument)))

-- An entry of the audit trail on a platform that has no stop while it is replaced.
unfoldable pub gap_audit :
    Venue → TrailingState → (previous current : Option Decimal) → Reason → Step (Unit {0})
gap_audit v s previous current reason =
    if (v.protection_capability s.instrument).reprice_gap
    then write_audit trailing_reprice_gap s previous current reason
    else give tt

unfoldable pub protection_lost : Venue → TrailingState → Reason → Step TrailingState
protection_lost v s reason = do
  gap_audit v s s.current_stop s.current_stop gap_end_failed
  record_protection_failure v s reason

-- The state once the platform confirmed a stop.
abbrev pub with_stop :
    TrailingState
    → (stop : Decimal) → (activation : Option Decimal) → (now : DateTime) → TrailingState
with_stop s stop activation now = record s {
  phase = if is_protection_error s.last_error then armed else s.phase;
  current_stop = some stop;
  resolved_activation_price = activation;
  activated = true;
  stop_owned = true;
  reprice_count = s.reprice_count + 1;
  failure_count = 0;
  last_error = none;
  updated_at = now;
}

abbrev pub after_verdict :
    Venue
    → TrailingState
    → (activation : Option Decimal) → (now : DateTime) → Verdict Decimal
    → Step TrailingState
after_verdict v s activation now (denied detail) = protection_lost v s (unconfirmed detail)
after_verdict v s activation now (confirmed stop) = do
  let final = with_stop s stop activation now
  upsert_trailing_state final
  publish final s.phase repriced
  gap_audit v final s.current_stop final.current_stop gap_end
  write_audit trailing_reprice final s.current_stop final.current_stop repriced
  give final

abbrev pub after_write :
    Venue
    → TrailingState
    → InstrumentSpec
    → (candidate : Decimal) → (activation : Option Decimal) → (now : DateTime) → Result (Unit {0})
    → Step TrailingState
after_write v s spec c activation now (err e) = protection_lost v s (write_raised e)
after_write v s spec c activation now (ok _) = do
  verdict ← confirm_stop v s c spec.tick_size
  after_verdict v s activation now verdict

abbrev pub attempted_at : TrailingState → (now : DateTime) → TrailingState
attempted_at s now = record s { last_reprice_at = some now; updated_at = now }

-- The stop is written to the platform and read back.
unfoldable pub write_stop :
    Venue
    → TrailingState
    → InstrumentSpec
    → (candidate : Decimal) → (activation : Option Decimal) → (now : DateTime) → Step TrailingState
write_stop v s spec c activation now = do
  let attempted = attempted_at s now
  gap_audit v attempted s.current_stop s.current_stop gap_start
  written ← attempt (modify_protection v attempted none (some c))
  after_write v attempted spec c activation now written

abbrev pub try_candidate :
    Venue
    → TrailingState
    → InstrumentSpec
    → (basis : Decimal) → (activation : Option Decimal) → (now : DateTime) → Result Decimal
    → Step TrailingState
try_candidate v s spec basis activation now (err e) =
    record_protection_failure v s (candidate_raised e)
try_candidate v s spec basis activation now (ok c) =
    if is_worth_writing v s spec basis c now
    then (do granted ← reserve v; if granted then write_stop v s spec c activation now else give s)
    else give s

-- `quantize_stop(candidate_stop(...), tick_size, side)`
unfoldable pub next_stop : TrailingState → (best : Decimal) → InstrumentSpec → Result Decimal
next_stop s best spec = elim (candidate_stop s.side best s.spec s.atr_value) [
  | err e ↦ err e
  | ok c ↦ quantize_stop c spec.tick_size s.side
]

abbrev pub activated_at : TrailingState → (now : DateTime) → TrailingState
activated_at s now = record s { activated = true; updated_at = now }

-- An initial stop is in place, and the activation is reached for the first time.
unfoldable pub activate : TrailingState → (now : DateTime) → Step TrailingState
activate s now = do
  upsert_trailing_state (activated_at s now)
  publish (activated_at s now) s.phase Reason.activated
  write_audit trailing_activated (activated_at s now) s.current_stop s.current_stop
      activation_reached
  give (activated_at s now)

-- The steps from the activation on.
unfoldable pub follow :
    Venue
    → TrailingState
    → (basis best : Decimal) → (activation : Option Decimal) → (now : DateTime) → Step TrailingState
follow v s basis best activation now =
    if not (is_activation_reached s.side basis activation)
    then give s
    else if not s.activated && is_some s.current_stop
    then activate s now
    else do
      spec ← instrument_spec v s.instrument
      try_candidate v s spec basis activation now (next_stop s best spec)

-- `self._fetch_failures[trailing_id] = 0`
unfoldable pub reset_fetch : Ident → Step (Unit {0})
reset_fetch i = update λ m. record m { fetch_failures = insert i 0 m.fetch_failures }

-- The steps from the price of the state's basis on.
unfoldable pub sample : Venue → TrailingState → (basis : Decimal) → Step TrailingState
sample v s basis = do
  reset_fetch s.trailing_id
  now ← read_clock v
  recovered ← recover_fetch_degraded s now
  let best = update_best_basis recovered.side recovered.best_basis basis
  noted ←
      store_if (differs (some best) recovered.best_basis) recovered
        (record recovered { best_basis = some best; updated_at = now })
  activation ← pure (resolve_activation_price noted.spec noted.side noted.entry_price)
  aimed ←
      store_if (differs activation noted.resolved_activation_price) noted
        (record noted { resolved_activation_price = activation; updated_at = now })
  follow v aimed basis best activation now

abbrev pub price_on : Ticker → Option TrailingBasis → Option Decimal
price_on t none = none
price_on t (some b) = basis_price t b

abbrev pub tick_state : Venue → TrailingState → Option Decimal → Step (Option TrailingState)
tick_state v s none = do
  after ← record_fetch_failure v s (no_price s.resolved_basis)
  get_trailing_state s.trailing_id
tick_state v s (some basis) = found (sample v s basis)

-- `on_ticker`
unfoldable pub on_ticker : Venue → (trailing_id : Ident) → Ticker → Step (Option TrailingState)
unfolding basis_price
on_ticker v i t = do
  require_ready v
  s ← get_trailing_state i
  when_watched (λ s. tick_state v s (price_on t s.resolved_basis)) s

-- `on_ticker_failure`
unfoldable pub on_ticker_failure :
    Venue → (trailing_id : Ident) → Reason → Step (Option TrailingState)
on_ticker_failure v i reason = do
  require_ready v
  s ← get_trailing_state i
  when_watched (λ s. found (record_fetch_failure v s reason)) s
