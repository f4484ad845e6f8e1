-- ===== src/Trailing/Manager/AtrRefresh.antt =====
-- `trailing/manager.py`: a refreshed ATR, and a failure to refresh it.
use unified_trading_executio.Base.{
  ℕ, ◌+◌, Bool, true, false, not, ◌&&◌, Option, none, some, insert, ℕ_key, pure, update, ok,
  if◌then◌else◌,
}
use unified_trading_executio.Decimal.{Decimal, pos, ltb_ℤ}
use unified_trading_executio.Types.{Ident, DateTime}
use unified_trading_executio.Trailing.Types.{
  armed, degraded, TrailingState, uses_atr, check_state, Reason, atr_error, atr_refreshed,
  atr_stale, is_atr_error,
}
use unified_trading_executio.Trailing.Manager.Desk.{
  Venue, trailing_recovered, Step, ◌>>=◌, ◌>>◌, give, require_ready, read_clock, get_trailing_state,
  upsert_trailing_state, publish, write_audit, is_degraded,
}
use unified_trading_executio.Trailing.Manager.Failures.{failures_of, degraded_by, announce_degraded}
use unified_trading_executio.Trailing.Manager.Ticking.{when_watched, found}

unfoldable pub announce_refreshed : (recovered : Bool) → TrailingState → Step (Unit {0})
announce_refreshed false s = give tt
announce_refreshed true s = do
  publish s degraded atr_refreshed
  write_audit trailing_recovered s s.current_stop s.current_stop atr_refreshed

-- The state with a new ATR.
abbrev pub refreshed : TrailingState → (atr : Decimal) → (as_of now : DateTime) → TrailingState
refreshed s atr as_of now =
    let recover = is_degraded s.phase && is_atr_error s.last_error in
    record s {
      phase = if recover then armed else s.phase;
      atr_value = some atr;
      atr_as_of = some as_of;
      last_error = if recover then none else s.last_error;
      updated_at = now;
    }

-- `self._atr_failures[trailing_id] = 0`
unfoldable pub reset_atr : Ident → Step (Unit {0})
reset_atr i = update λ m. record m { atr_failures = insert i 0 m.atr_failures }

-- The steps of `on_atr` on a watched state.
unfoldable pub refresh_atr :
    Venue → (atr : Decimal) → (as_of : DateTime) → TrailingState → Step TrailingState
refresh_atr v atr as_of s = do
  reset_atr s.trailing_id
  now ← read_clock v
  pure (check_state (refreshed s atr as_of now))
  upsert_trailing_state (refreshed s atr as_of now)
  announce_refreshed (is_degraded s.phase && is_atr_error s.last_error) (refreshed s atr as_of now)
  give (refreshed s atr as_of now)

-- `on_atr`
unfoldable pub on_atr :
    Venue
    → (trailing_id : Ident) → (atr : Decimal) → (as_of : DateTime) → Step (Option TrailingState)
on_atr v i atr as_of = do
  require_ready v
  s ← get_trailing_state i
  when_watched (λ s. if uses_atr s.spec then found (refresh_atr v atr as_of s) else give (some s)) s

-- `count = self._atr_failures.get(trailing_id, 0) + 1`, which is stored.
unfoldable pub bump_atr : Ident → Step ℕ
bump_atr i m =
    let n = failures_of i m.atr_failures + 1 in
    (record m { atr_failures = insert i n m.atr_failures }, ok n)

-- A state that is degraded already, with the last reason.
abbrev pub stale_again : TrailingState → Reason → (now : DateTime) → TrailingState
stale_again s reason now = record s { last_error = some (atr_error reason); updated_at = now }

-- A watched state whose ATR is stale.
unfoldable pub mark_stale : Venue → TrailingState → Reason → Step TrailingState
mark_stale v s reason =
    if is_degraded s.phase
    then (if not (is_atr_error s.last_error) then give s else (do
      now ← read_clock v
      let after = record s { last_error = some (atr_error reason); updated_at = now }
      upsert_trailing_state after
      give after))
    else (do
      now ← read_clock v
      upsert_trailing_state (degraded_by s (atr_error reason) now)
      announce_degraded s (degraded_by s (atr_error reason) now) atr_stale
      give (degraded_by s (atr_error reason) now))

-- The steps of `on_atr_failure` on a watched state.
unfoldable pub count_atr_failure : Venue → Reason → TrailingState → Step TrailingState
count_atr_failure v reason s = do
  n ← bump_atr s.trailing_id
  if ltb_ℤ (pos n) v.config.atr_stale_after_candles then give s else mark_stale v s reason

-- `on_atr_failure`
unfoldable pub on_atr_failure : Venue → (trailing_id : Ident) → Reason → Step (Option TrailingState)
on_atr_failure v i reason = do
  require_ready v
  s ← get_trailing_state i
  when_watched
      (λ s. if uses_atr s.spec then found (count_atr_failure v reason s) else give (some s)) s
