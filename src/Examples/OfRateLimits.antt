-- ===== src/Examples/OfRateLimits.antt =====
-- A budget whose window elapses between reservations.
use unified_trading_executio.Base.{
  ◌+◌, ◌≤◌, ◌≡◌, refl, true, false, none, some, List, [], ◌∷◌, arith,
}
use unified_trading_executio.Decimal.{pos, pos_part, ◌-ℤ◌}
use unified_trading_executio.RateLimits.{
  RateLimits, Limiter, initial, reserve_rate_limit, refresh_pending_done, refresh_rate_limits,
  refresh_if_stale, effective_budget,
}
use unified_trading_executio.RateLimits.Runs.{
  Call, reserve, check_stale, consume, finish_refresh, granted, reported, granted_le, IsSingle,
  after_call, after_calls, calls-IsSingle, reserve_after_refresh,
}
use unified_trading_executio.Examples.Samples.{risk_config}

abbrev two_left : RateLimits
two_left = record { remaining = pos 2; reset_at = 100 }

-- The first reservation waits for the limits, the next two are granted, and the fourth is refused.
abbrev run : List Call
run =
    reserve 10
    ∷ finish_refresh (some two_left)
    ∷ reserve 11
    ∷ reserve 12
    ∷ reserve 13
    ∷ check_stale 14 none
    ∷ consume
    ∷ []

reservations_of_run : granted risk_config run initial ≡ 2
unfolding reserve_rate_limit refresh_pending_done refresh_rate_limits refresh_if_stale
    effective_budget ◌-ℤ◌
reservations_of_run = refl

granted_le_example :
    granted risk_config run initial ≤ pos_part initial.budget + reported risk_config run initial
granted_le_example = granted_le risk_config run initial refl

calls-IsSingle_example : IsSingle (after_calls risk_config run initial)
calls-IsSingle_example = calls-IsSingle risk_config run initial refl

-- The window of this budget ends at the instant 100.
abbrev exhausted : Limiter
exhausted = record { budget = pos 0; window_end = some 100; refresh_pending = false; in_flight = 0 }

abbrev next_window : RateLimits
next_window = record { remaining = pos 5; reset_at = 200 }

reserve_after_refresh_example :
    ((reserve_rate_limit risk_config 120 exhausted).1 ≡ false)
    × ((reserve_rate_limit risk_config 120 exhausted).0.in_flight ≡ 1)
    × ((reserve_rate_limit risk_config 130 (
          after_call risk_config
            (finish_refresh (some next_window))
            (reserve_rate_limit risk_config 120 exhausted).0)).1
        ≡ true)
reserve_after_refresh_example =
    reserve_after_refresh risk_config exhausted 120 130 next_window refl refl refl (omega arith)
      (omega arith)
