-- ===== src/RateLimits/Runs.antt =====
-- Runs of the rate-limit budget: how many venue actions are reserved, how many refreshes are
-- scheduled, and that a refresh lets a refused caller go on.
use unified_trading_executio.Base.{
  ℕ, zero, suc, ◌+◌, ◌≤◌, ◌<◌, ◌≡◌, refl, Bool, true, false, Option, none, some, List, [], ◌∷◌,
  arith, if◌then◌else◌,
}
use unified_trading_executio.Decimal.{ℤ, pos, negsuc, pos_part, ◌-ℤ◌, ◌<ℤ◌, leb_ℤ_iff}
use unified_trading_executio.Risk.{RiskConfig}
use unified_trading_executio.RateLimits.{
  RateLimits, Limiter, is_stale, is_elapsed, schedule_refresh, spend, reserve_rate_limit,
  refresh_rate_limits, refresh_if_stale, refresh_pending_done, effective_budget,
}

-- What happens to the budget: a reservation, the check before placing or modifying, the placing or
-- modifying itself, and the end of a scheduled refresh, if one is in flight.
pub data Call : Type 0 where
  reserve : (now : ℕ) → Call
  check_stale : (now : ℕ) → Option RateLimits → Call
  consume : Call
  finish_refresh : Option RateLimits → Call

abbrev pub after_call : RiskConfig → Call → Limiter → Limiter
after_call config (reserve now) s = (reserve_rate_limit config now s).0
after_call config (check_stale now answer) s = refresh_if_stale now answer s
after_call config consume s = spend s
after_call config (finish_refresh answer) s = elim s.in_flight [
  | zero ↦ s
  | suc n ↦ refresh_pending_done answer s
]

abbrev pub after_calls : RiskConfig → List Call → Limiter → Limiter
after_calls config [] s = s
after_calls config (c ∷ cs) s = after_calls config cs (after_call config c s)

abbrev pub count : Bool → ℕ
count b = if b then 1 else 0

-- The reservations that a call and a run grant.
abbrev pub granted_by : RiskConfig → Call → Limiter → ℕ
granted_by config (reserve now) s = count (reserve_rate_limit config now s).1
granted_by config (check_stale now answer) s = 0
granted_by config consume s = 0
granted_by config (finish_refresh answer) s = 0

abbrev pub granted : RiskConfig → List Call → Limiter → ℕ
granted config [] s = 0
granted config (c ∷ cs) s = granted_by config c s + granted config cs (after_call config c s)

abbrev pub allowance : Option RateLimits → ℕ
allowance none = 0
allowance (some rl) = pos_part rl.remaining

-- What the adapter reports as remaining, in the answers that a call and a run read.
abbrev pub reported_by : Call → Limiter → ℕ
reported_by (reserve now) s = 0
reported_by (check_stale now answer) s =
    if is_stale s.window_end s.budget now then allowance answer else 0
reported_by consume s = 0
reported_by (finish_refresh answer) s = elim s.in_flight [ zero ↦ 0 | suc n ↦ allowance answer ]

abbrev pub reported : RiskConfig → List Call → Limiter → ℕ
reported config [] s = 0
reported config (c ∷ cs) s = reported_by c s + reported config cs (after_call config c s)

spent : (b : ℤ) → (pos 0 <ℤ b) → pos_part (b -ℤ pos 1) + 1 ≡ pos_part b
unfolding ◌-ℤ◌
spent (pos n) h = ground arith
spent (negsuc n) h = ground arith

spent_le : (b : ℤ) → pos_part (b -ℤ pos 1) ≤ pos_part b
unfolding ◌-ℤ◌
spent_le (pos n) = ground arith
spent_le (negsuc n) = ground arith

refreshed_le :
    (answer : Option RateLimits) (s : Limiter)
    → pos_part (refresh_rate_limits answer s).budget ≤ pos_part s.budget + allowance answer
unfolding refresh_rate_limits
refreshed_le none s = omega arith
refreshed_le (some rl) s = omega arith

call_le :
    (config : RiskConfig) (c : Call) (s : Limiter)
    → config.rate_limit_budget_override ≡ none
    → granted_by config c s + pos_part (after_call config c s).budget
      ≤ pos_part s.budget + reported_by c s
unfolding reserve_rate_limit effective_budget refresh_if_stale refresh_pending_done
call_le config (reserve now) s plain =
    rw plain (ground (arith, spent s.budget, leb_ℤ_iff s.budget (pos 0)))
call_le config (check_stale now answer) s plain = ground (arith, refreshed_le answer s)
call_le config consume s plain = ground (arith, spent_le s.budget)
call_le config (finish_refresh answer) s plain = ground (arith, refreshed_le answer s)

-- Without an override, a run of reservations, checks, placings, modifications and refreshes grants
-- at most as many reservations as the budget that it starts with and the budgets that the adapter
-- reports in the answers that the run reads, a negative one counted as zero.
pub granted_le :
    (config : RiskConfig) (cs : List Call) (s : Limiter)
    → config.rate_limit_budget_override ≡ none
    → granted config cs s ≤ pos_part s.budget + reported config cs s
granted_le config [] s plain = omega arith
granted_le config (c ∷ cs) s plain =
    let first = call_le config c s plain in
    let rest = granted_le config cs (after_call config c s) plain in omega arith

-- One run is in flight while a refresh is pending, and none otherwise.
abbrev pub IsSingle : Limiter → Type 0
IsSingle s = s.in_flight ≡ count s.refresh_pending

call-IsSingle :
    (config : RiskConfig) (c : Call) (s : Limiter) → IsSingle s → IsSingle (after_call config c s)
unfolding reserve_rate_limit refresh_if_stale refresh_rate_limits refresh_pending_done
call-IsSingle config (reserve now) s h = ground arith
call-IsSingle config (check_stale now answer) s h = ground arith
call-IsSingle config consume s h = h
call-IsSingle config (finish_refresh answer) s h = ground arith

-- Any run of the budget keeps it so that exactly one scheduled refresh is in flight while a refresh
-- is pending, and none otherwise.
pub calls-IsSingle :
    (config : RiskConfig) (cs : List Call) (s : Limiter)
    → IsSingle s
    → IsSingle (after_calls config cs s)
calls-IsSingle config [] s h = h
calls-IsSingle config (c ∷ cs) s h =
    calls-IsSingle config cs (after_call config c s) (call-IsSingle config c s h)

refused_lem :
    (config : RiskConfig) (s : Limiter) (now : ℕ)
    → config.rate_limit_budget_override ≡ none
    → is_elapsed s.window_end now ≡ true
    → reserve_rate_limit config now s ≡ (schedule_refresh s, false)
unfolding reserve_rate_limit
refused_lem config s now plain elapsed = rw plain (rw elapsed refl)

granted_lem :
    (config : RiskConfig) (s : Limiter) (later : ℕ) (rl : RateLimits)
    → config.rate_limit_budget_override ≡ none
    → s.in_flight ≡ 1
    → pos 0 <ℤ rl.remaining
    → later < rl.reset_at
    → (reserve_rate_limit config later (after_call config (finish_refresh (some rl)) s)).1 ≡ true
unfolding reserve_rate_limit refresh_rate_limits refresh_pending_done effective_budget
granted_lem config s later rl plain one left open_until =
    rw one (rw plain (ground (arith, leb_ℤ_iff rl.remaining (pos 0))))

scheduled_lem : (s : Limiter) → IsSingle s → (schedule_refresh s).in_flight ≡ 1
scheduled_lem s h = ground arith

-- Without an override, once the window of the budget has elapsed a reservation is refused and
-- leaves a refresh in flight; when that refresh ends with an answer that leaves requests
-- and a window that has not elapsed, the next reservation is granted.
pub reserve_after_refresh :
    (config : RiskConfig) (s : Limiter) (now later : ℕ) (rl : RateLimits)
    → config.rate_limit_budget_override ≡ none
    → IsSingle s
    → is_elapsed s.window_end now ≡ true
    → pos 0 <ℤ rl.remaining
    → later < rl.reset_at
    → let (refused, granted_now) = reserve_rate_limit config now s in
      (granted_now ≡ false)
      × (refused.in_flight ≡ 1)
      × ((reserve_rate_limit config later (after_call config (finish_refresh (some rl)) refused)).1
          ≡ true)
unfolding reserve_rate_limit refresh_rate_limits refresh_pending_done effective_budget
reserve_after_refresh config s now later rl plain h elapsed left open_until =
    rw (refused_lem config s now plain elapsed) (
      refl,
      scheduled_lem s h,
      granted_lem config (schedule_refresh s) later rl plain (scheduled_lem s h) left open_until,
    )
