-- ===== src/Examples/OfManager.antt =====
-- A trailing stop that is moved, loses its prices, and is cancelled.
use unified_trading_executio.Base.{◌≡◌, ◌⊎◌, refl, some, none, [], ◌∷◌, ◌++◌, lookup, ℕ_key, arith}
use unified_trading_executio.Trailing.{TrailingState, Reason}
use unified_trading_executio.Trailing.Manager.{
  after_verdict, confirmed, on_ticker, Call, clear_owned_protection,
}
use unified_trading_executio.Trailing.Manager.Writes.{writes}
use unified_trading_executio.Trailing.Manager.OwnClears.{
  ClearsOurs, clear_owned_protection-ClearsOurs,
}
use unified_trading_executio.Trailing.Manager.FailureCounts.{
  IsDegradedFrom, after_failures, on_ticker_failure-IsDegradedFrom,
}
use unified_trading_executio.Trailing.Manager.Leads.{Leads}
use unified_trading_executio.Trailing.Manager.TickerWrites.{IsTicked, on_ticker-IsTicked}
use unified_trading_executio.Trailing.Manager.Stuck.{IsStuck, after_signals, after_verdict-IsStuck}
use unified_trading_executio.Examples.Samples.{dec}
use unified_trading_executio.Examples.Trails.{
  stale_trail, signals, at, venue, manager, at_120, long_trail,
}

on_ticker-IsTicked_example :
    IsTicked venue (some long_trail) manager (on_ticker venue 1 at_120 manager).0
on_ticker-IsTicked_example = on_ticker-IsTicked venue 1 at_120 manager

clear_owned_protection-ClearsOurs_example :
    (writes (clear_owned_protection venue long_trail manager).0 ≡ writes manager)
    ⊎ ((c : Call) × (writes (clear_owned_protection venue long_trail manager).0
          ≡ writes manager ++ c ∷ [])
        × ClearsOurs venue long_trail [] c)
clear_owned_protection-ClearsOurs_example =
    clear_owned_protection-ClearsOurs venue long_trail manager

on_ticker_failure-IsDegradedFrom_example :
    (t : TrailingState) × (lookup 1 (after_failures venue 1 (Reason.given 5) 4 manager).states
      ≡ some t)
    × IsDegradedFrom 3 4 (Reason.given 5) long_trail t
on_ticker_failure-IsDegradedFrom_example =
    on_ticker_failure-IsDegradedFrom venue 3 4 1 (Reason.given 5) long_trail manager refl refl
      (omega arith) refl refl refl refl refl

after_verdict-IsStuck_example : IsStuck 1 (
    after_signals venue 1 signals
      (after_verdict venue stale_trail none (at 5) (confirmed (dec 114)) manager).0)
after_verdict-IsStuck_example =
    after_verdict-IsStuck venue stale_trail none (at 5) (dec 114) signals manager refl refl
