-- ===== src/Trailing/Manager/AtrRuns.antt =====
-- An ATR, and a failure to refresh it, keep to the lifecycle.
use unified_trading_executio.Base.{
  ◌≡◌, refl, Bool, true, false, not, ◌&&◌, arith, Bool-cases, inl, inr,
}
use unified_trading_executio.Decimal.{Decimal, pos, ltb_ℤ}
use unified_trading_executio.Types.{DateTime}
use unified_trading_executio.Trailing.{TrailingState, Reason, is_atr_error, atr_error, check_state}
use unified_trading_executio.Trailing.Manager.{
  Venue, is_watched, is_degraded, refreshed, refresh_atr, mark_stale, count_atr_failure,
  stale_again, degraded_by, announce_refreshed,
}
use unified_trading_executio.Trailing.Manager.Tracking.{IsTracking, IsQuiet}
use unified_trading_executio.Trailing.Manager.Quiet.{
  clock-IsQuiet, announce-IsQuiet, bump_atr-IsQuiet, reset_atr-IsQuiet, pure-Leaves,
  publish-IsQuiet, audit-IsQuiet, >>=-Leaves, give-Leaves,
}
use unified_trading_executio.Trailing.Manager.Lifecycle.{
  Watches, Watches-step, armed-degraded, watched-armed, stay,
}
use unified_trading_executio.Trailing.Manager.TickerRuns.{still, quietly, storing, branch, aside}

refreshed-Watches :
    (s : TrailingState) (atr : Decimal) (as_of now : DateTime)
    → is_watched s.phase ≡ true
    → Watches s (refreshed s atr as_of now)
refreshed-Watches s atr as_of now w =
    elim (Bool-cases (is_degraded s.phase && is_atr_error s.last_error)) [
      | inl back ↦
          Watches-step s (refreshed s atr as_of now) w (rw back (watched-armed s.phase w))
            (rw back refl) (ground arith)
      | inr other ↦
          Watches-step s (refreshed s atr as_of now) w (rw other stay) (rw other w) (ground arith)
    ]

refreshed-IsQuiet : (b : Bool) (s : TrailingState) → IsQuiet (announce_refreshed b s)
unfolding announce_refreshed
refreshed-IsQuiet false s = give-Leaves tt
refreshed-IsQuiet true s = >>=-Leaves _ _ (publish-IsQuiet _ _ _) (λ _. audit-IsQuiet _ _ _ _ _)

pub refresh_atr-IsTracking :
    (v : Venue) (atr : Decimal) (as_of : DateTime) (s : TrailingState)
    → is_watched s.phase ≡ true
    → IsTracking Watches s (refresh_atr v atr as_of s)
unfolding refresh_atr
refresh_atr-IsTracking v atr as_of s w = quietly s _ _ (reset_atr-IsQuiet s.trailing_id) (λ _.
    quietly s _ _ (clock-IsQuiet v) (λ now.
      quietly s _ _ (pure-Leaves (check_state (refreshed s atr as_of now))) (λ _.
        storing s (refreshed s atr as_of now) _ (refreshed-Watches s atr as_of now w)
          (quietly _ _ _ (refreshed-IsQuiet _ _) (λ _. still _)))))

mark_stale-IsTracking :
    (v : Venue) (s : TrailingState) (reason : Reason)
    → is_watched s.phase ≡ true
    → IsTracking Watches s (mark_stale v s reason)
unfolding mark_stale
mark_stale-IsTracking v s reason w =
    branch s (is_degraded s.phase)
      (λ _.
        branch s (not (is_atr_error s.last_error)) (λ _. still s)
          (λ _. quietly s _ _ (clock-IsQuiet v) (λ now.
            storing s (stale_again s reason now) _
              (aside s (stale_again s reason now) w refl (ground arith)) (still _))))
      (λ healthy. quietly s _ _ (clock-IsQuiet v) (λ now.
        let after = degraded_by s (atr_error reason) now in
        storing s after _
          (Watches-step s after w (armed-degraded s.phase w healthy) refl (ground arith))
          (quietly _ _ _ (announce-IsQuiet s _ _) (λ _. still _))))

pub count_atr_failure-IsTracking :
    (v : Venue) (reason : Reason) (s : TrailingState)
    → is_watched s.phase ≡ true
    → IsTracking Watches s (count_atr_failure v reason s)
unfolding count_atr_failure
count_atr_failure-IsTracking v reason s w = quietly s _ _ (bump_atr-IsQuiet s.trailing_id) (λ n.
    branch s (ltb_ℤ (pos n) v.config.atr_stale_after_candles) (λ _. still s)
      (λ _. mark_stale-IsTracking v s reason w))
