-- ===== src/RateLimits.antt =====
-- The rate-limit budget of `engine.py`: what the adapter last reported, the reservations of the
-- trailing protection, what placing and modifying consume, and the refreshes. A time is an instant
-- in microseconds; the answer of the adapter to a request of its limits is given to the refresh.
pub mod Runs
use unified_trading_executio.Base.{
  ℕ, ◌+◌, ◌-◌, Bool, true, false, not, ◌&&◌, ◌||◌, Option, none, some, leb, if◌then◌else◌,
}
use unified_trading_executio.Decimal.{ℤ, pos, ltb_ℤ, leb_ℤ, ◌-ℤ◌}
use unified_trading_executio.Risk.{RiskConfig}

-- The fields of the adapter's `RateLimits` that the engine reads.
pub record RateLimits : Type 0 where
  pub remaining : ℤ
  pub reset_at : ℕ

-- `in_flight` counts the scheduled runs of `_refresh_rate_limits_pending` that are not done.
pub record Limiter : Type 0 where
  pub budget : ℤ
  pub window_end : Option ℕ
  pub refresh_pending : Bool
  pub in_flight : ℕ

abbrev pub initial : Limiter
initial = record { budget = pos 0; window_end = none; refresh_pending = false; in_flight = 0 }

abbrev pub budget_or : Option ℤ → ℤ → ℤ
budget_or (some n) budget = n
budget_or none budget = budget

-- `Engine._effective_budget`
unfoldable pub effective_budget : RiskConfig → Limiter → ℤ
effective_budget config s = budget_or config.rate_limit_budget_override s.budget

-- `Engine._refresh_rate_limits`; no answer stands for an exception of the adapter.
unfoldable pub refresh_rate_limits : Option RateLimits → Limiter → Limiter
refresh_rate_limits none s = s
refresh_rate_limits (some rl) s = record s { budget = rl.remaining; window_end = some rl.reset_at }

-- `self._rate_limit_reset_at is None or _utcnow() >= self._rate_limit_reset_at`
abbrev pub is_elapsed : Option ℕ → (now : ℕ) → Bool
is_elapsed none now = true
is_elapsed (some t) now = leb t now

-- Whether `_refresh_rate_limits_if_stale` asks the adapter.
abbrev pub is_stale : Option ℕ → (budget : ℤ) → (now : ℕ) → Bool
is_stale none budget now = true
is_stale (some t) budget now = if ltb_ℤ (pos 0) budget then false else leb t now

-- `Engine._refresh_rate_limits_if_stale`
unfoldable pub refresh_if_stale : (now : ℕ) → Option RateLimits → Limiter → Limiter
refresh_if_stale now answer s =
    if is_stale s.window_end s.budget now then refresh_rate_limits answer s else s

abbrev pub schedule_refresh : Limiter → Limiter
schedule_refresh s =
    if s.refresh_pending
    then s
    else record s { refresh_pending = true; in_flight = s.in_flight + 1 }

-- `self._rate_limit_budget -= 1`
abbrev pub spend : Limiter → Limiter
spend s = record s { budget = s.budget -ℤ pos 1 }

abbrev pub spend_unless : Option ℤ → Limiter → Limiter
spend_unless (some n) s = s
spend_unless none s = spend s

abbrev pub is_absent : Option ℤ → Bool
is_absent none = true
is_absent (some n) = false

-- `Engine.reserve_rate_limit`
unfoldable pub reserve_rate_limit : RiskConfig → (now : ℕ) → Limiter → Limiter × Bool
reserve_rate_limit config now s =
    if is_absent config.rate_limit_budget_override && is_elapsed s.window_end now
    then (schedule_refresh s, false)
    else if leb_ℤ (effective_budget config s) (pos 0)
    then (s, false)
    else (spend_unless config.rate_limit_budget_override s, true)

-- `Engine._refresh_rate_limits_pending`, of a scheduled run
unfoldable pub refresh_pending_done : Option RateLimits → Limiter → Limiter
refresh_pending_done answer s =
    let after = refresh_rate_limits answer s in
    record after { refresh_pending = false; in_flight = after.in_flight - 1 }
