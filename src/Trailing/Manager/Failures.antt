-- ===== src/Trailing/Manager/Failures.antt =====
-- `trailing/manager.py`: how failures are counted, when they degrade a state, and how it recovers.
use unified_trading_executio.Base.{
  ℕ, ◌+◌, Bool, ◌&&◌, Option, none, some, List, lookup, insert, ℕ_key, get_or, ok, or_else,
  if◌then◌else◌,
}
use unified_trading_executio.Decimal.{Decimal, pos, ltb_ℤ}
use unified_trading_executio.Types.{Ident, DateTime}
use unified_trading_executio.Trailing.Types.{
  armed, degraded, TrailingState, Reason, Note, fetch_error, protection_error, ticker_recovered,
  is_fetch_error, is_protection_error,
}
use unified_trading_executio.Trailing.Manager.Desk.{
  Venue, trailing_recovered, trailing_degraded, Step, ◌>>=◌, ◌>>◌, give, read_clock,
  upsert_trailing_state, publish, write_audit, ensure_transition_allowed, is_degraded,
}

-- `dict.get(trailing_id, 0)`
abbrev pub failures_of : Ident → List (Ident × ℕ) → ℕ
failures_of i d = get_or (lookup i d) 0

-- `count = self._fetch_failures.get(trailing_id, 0) + 1`, which is stored.
unfoldable pub bump_fetch : Ident → Step ℕ
bump_fetch i m =
    let n = failures_of i m.fetch_failures + 1 in
    (record m { fetch_failures = insert i n m.fetch_failures }, ok n)

-- That a state is degraded is published and written down.
unfoldable pub announce_degraded : (before after : TrailingState) → Reason → Step (Unit {0})
announce_degraded before after reason = do
  publish after before.phase reason
  write_audit trailing_degraded after before.current_stop before.current_stop reason

-- The state as it is degraded for an error.
abbrev pub degraded_by : TrailingState → (error : Note) → (now : DateTime) → TrailingState
degraded_by s error now = record s { phase = degraded; last_error = some error; updated_at = now }

-- The state once a ticker is back.
abbrev pub recovered_at : TrailingState → (now : DateTime) → TrailingState
recovered_at s now = record s { phase = armed; last_error = none; updated_at = now }

-- The state with one more failure to protect it.
abbrev pub counted_failure : TrailingState → Reason → (now : DateTime) → TrailingState
counted_failure s reason now = record s {
  failure_count = s.failure_count + 1;
  last_error = some (protection_error reason);
  updated_at = now;
}

-- `_record_fetch_failure`
unfoldable pub record_fetch_failure : Venue → TrailingState → Reason → Step TrailingState
record_fetch_failure v s reason = do
  n ← bump_fetch s.trailing_id
  if ltb_ℤ (pos n) v.config.fetch_failure_threshold
      then give s
      else if is_degraded s.phase
      then give s
      else do
        now ← read_clock v
        let after = record s {
          phase = degraded;
          last_error = some (fetch_error reason);
          updated_at = now;
        }
        upsert_trailing_state after
        announce_degraded s after reason
        give after

-- `_recover_fetch_degraded`
unfoldable pub recover_fetch_degraded : TrailingState → DateTime → Step TrailingState
recover_fetch_degraded s now =
    if is_degraded s.phase && is_fetch_error s.last_error
    then (do
      upsert_trailing_state (recovered_at s now)
      publish (recovered_at s now) degraded ticker_recovered
      write_audit trailing_recovered (recovered_at s now) s.current_stop s.current_stop
          ticker_recovered
      give (recovered_at s now))
    else give s

-- `_record_protection_failure`
unfoldable pub record_protection_failure : Venue → TrailingState → Reason → Step TrailingState
record_protection_failure v s reason = do
  now ← read_clock v
  let counted = counted_failure s reason now
  if is_degraded s.phase
      then (upsert_trailing_state counted >> give counted)
      else if ltb_ℤ (pos (s.failure_count + 1)) v.config.protection_failure_threshold
      then (upsert_trailing_state counted >> give counted)
      else do
        ensure_transition_allowed s.phase degraded
        let after = degraded_by counted (protection_error reason) now
        upsert_trailing_state after
        announce_degraded s after reason
        give after

-- `_degrade_now`
unfoldable pub degrade_now : Venue → TrailingState → Reason → Step TrailingState
degrade_now v s reason = do
  (if is_degraded s.phase then give tt else ensure_transition_allowed s.phase degraded)
  now ← read_clock v
  let after = degraded_by (counted_failure s reason now) (protection_error reason) now
  upsert_trailing_state after
  (if is_degraded s.phase then give tt else announce_degraded s after reason)
  give after

-- `_protection_confirmed`: the state, and whether it recovered.
unfoldable pub protection_confirmed :
    TrailingState → (stop take_profit : Option Decimal) → (now : DateTime) → TrailingState × Bool
protection_confirmed s stop take_profit now =
    let recovered = is_degraded s.phase && is_protection_error s.last_error in
    (
      record s {
        phase = if recovered then armed else s.phase;
        current_stop = or_else stop s.current_stop;
        current_take_profit = or_else take_profit s.current_take_profit;
        failure_count = 0;
        last_error = if is_protection_error s.last_error then none else s.last_error;
        updated_at = now;
      },
      recovered,
    )
