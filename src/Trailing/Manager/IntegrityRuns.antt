-- ===== src/Trailing/Manager/IntegrityRuns.antt =====
-- The check of a synthetic state keeps to the lifecycle.
use unified_trading_executio.Base.{
  ◌+◌, ◌≡◌, true, false, not, ◌&&◌, ◌||◌, arith, Option, none, some, is_some, List, Result, ok, err,
  ◌==◌, ℕ_key,
}
use unified_trading_executio.Decimal.{Decimal, pos, ltb_ℤ}
use unified_trading_executio.Types.{DateTime}
use unified_trading_executio.Trailing.{
  TrailingPhase, TrailingState, Reason, degraded, is_active_phase, position_closed,
  is_protection_error, protection_error, IntegrityNote,
}
use unified_trading_executio.Trailing.Manager.{
  Venue, is_degraded, may_reduce, Protection, Verdict, confirmed, denied, record_protection_failure,
  counted_failure, degraded_by, protection_confirmed, restored, after_restoring, after_rewrite,
  rewrite_levels, confirm_unchanged, settle_finding, after_reading, Finding, is_protected,
  check_synthetic,
}
use unified_trading_executio.Trailing.Manager.Tracking.{IsTracking, if-IsTracking}
use unified_trading_executio.Trailing.Manager.Quiet.{
  clock-IsQuiet, announce-IsQuiet, publish-IsQuiet, audit-IsQuiet, give-Leaves, if-Leaves,
  >>=-Leaves, reserve-IsQuiet, attempt-Leaves, ensure-IsQuiet, modify-IsQuiet, spec-IsQuiet,
  read-IsQuiet, confirm_levels-IsQuiet,
}
use unified_trading_executio.Trailing.Manager.Lifecycle.{Evolves, Evolves-step, stay}
use unified_trading_executio.Trailing.Manager.ClosingRuns.{
  rest_here, quietly_on, writing, active-open, close-IsTracking,
}
use unified_trading_executio.Trailing.Manager.PositionRuns.{confirmed-Evolves, active-degraded}

pub failure-IsTracking :
    (v : Venue) (s : TrailingState) (r : Reason)
    → is_active_phase s.phase ≡ true
    → IsTracking Evolves s (record_protection_failure v s r)
unfolding record_protection_failure
failure-IsTracking v s r live = quietly_on s _ _ (clock-IsQuiet v) (λ now.
    let counted = counted_failure s r now in
    let after = degraded_by counted (protection_error r) now in
    let counts : Evolves s counted =
      Evolves-step s counted (active-open s.phase live) stay (ground arith) in
    if-IsTracking Evolves s (is_degraded s.phase) (λ _. writing s counted _ counts (rest_here _))
      (λ _.
        if-IsTracking Evolves s
          (ltb_ℤ (pos (s.failure_count + 1)) v.config.protection_failure_threshold)
          (λ _. writing s counted _ counts (rest_here _))
          (λ _. quietly_on s _ _ (ensure-IsQuiet s.phase degraded) (λ _.
            writing s after _
              (Evolves-step s after (active-open s.phase live) (active-degraded s.phase live)
                (ground arith))
              (quietly_on _ _ _ (announce-IsQuiet s after r) (λ _. rest_here _))))))

restored-IsTracking :
    (s : TrailingState) (stop profit : Option Decimal) (now : DateTime) (r : Reason)
    → is_active_phase s.phase ≡ true
    → IsTracking Evolves s (restored s stop profit now r)
unfolding restored
restored-IsTracking s stop profit now r live =
    writing s (protection_confirmed s stop profit now).0 _
      (confirmed-Evolves s stop profit now live)
      (quietly_on _ _ _
        (if-Leaves (protection_confirmed s stop profit now).1 _ _ (publish-IsQuiet _ _ _)
          (give-Leaves tt))
        (λ _. quietly_on _ _ _ (audit-IsQuiet _ _ _ _ _) (λ _. rest_here _)))

unchanged-IsTracking :
    (s : TrailingState) (now : DateTime)
    → is_active_phase s.phase ≡ true
    → IsTracking Evolves s (confirm_unchanged s now)
unfolding confirm_unchanged
unchanged-IsTracking s now live =
    if-IsTracking Evolves s (not (is_protection_error s.last_error) && s.failure_count == 0)
      (λ _. rest_here s)
      (λ _.
        writing s (protection_confirmed s none none now).0 _
          (confirmed-Evolves s none none now live)
          (quietly_on _ _ _
            (if-Leaves (protection_confirmed s none none now).1 _ _
              (>>=-Leaves _ _ (publish-IsQuiet _ _ _) (λ _. audit-IsQuiet _ _ _ _ _))
              (give-Leaves tt))
            (λ _. rest_here _)))

verdict-IsTracking :
    (v : Venue) (s : TrailingState) (f : Finding) (ns : List IntegrityNote) (now : DateTime)
    (w : Verdict (Option Decimal × Option Decimal))
    → is_active_phase s.phase ≡ true
    → IsTracking Evolves s (after_restoring v s f ns now w)
verdict-IsTracking v s f ns now (denied d) live = failure-IsTracking v s _ live
verdict-IsTracking v s f ns now (confirmed (stop, profit)) live =
    restored-IsTracking s _ _ now _ live

rewrite-IsTracking :
    (v : Venue) (s : TrailingState) (f : Finding) (profit : Option Decimal) (tick : Decimal)
    (now : DateTime) (r : Result (Unit {0}))
    → is_active_phase s.phase ≡ true
    → IsTracking Evolves s (after_rewrite v s f profit tick now r)
rewrite-IsTracking v s f profit tick now (err e) live = failure-IsTracking v s _ live
rewrite-IsTracking v s f profit tick now (ok _) live =
    quietly_on s _ _ (confirm_levels-IsQuiet v s f.write_stop profit tick)
      (λ w. verdict-IsTracking v s f _ now w live)

settle-IsTracking :
    (v : Venue) (s : TrailingState) (f : Finding) (profit : Option Decimal) (tick : Decimal)
    (now : DateTime)
    → is_active_phase s.phase ≡ true
    → IsTracking Evolves s (settle_finding v s f profit tick now)
unfolding rewrite_levels
settle-IsTracking v s f profit tick now live =
    if-IsTracking Evolves s (is_some f.write_stop || is_some profit)
      (λ _.
        if-IsTracking Evolves s (not (may_reduce v s.instrument))
          (λ _. failure-IsTracking v s _ live)
          (λ _. quietly_on s _ _ (reserve-IsQuiet v) (λ granted.
            if-IsTracking Evolves s granted
              (λ _.
                quietly_on s _ _ (attempt-Leaves _ (modify-IsQuiet v s profit f.write_stop))
                  (λ r. rewrite-IsTracking v s f profit tick now r live))
              (λ _. rest_here s))))
      (λ _.
        if-IsTracking Evolves s (is_some f.adopted_stop)
          (λ _. restored-IsTracking s _ none now _ live) (λ _. unchanged-IsTracking s now live))

reading-IsTracking :
    (v : Venue) (s : TrailingState) (answer : Result (Option Protection))
    → is_active_phase s.phase ≡ true
    → IsTracking Evolves s (after_reading v s answer)
reading-IsTracking v s (err e) live = failure-IsTracking v s _ live
reading-IsTracking v s (ok none) live =
    quietly_on s _ _ (clock-IsQuiet v) (λ now. close-IsTracking v s position_closed now)
reading-IsTracking v s (ok (some p)) live = quietly_on s _ _ (clock-IsQuiet v) (λ now.
    quietly_on s _ _ (spec-IsQuiet v s.instrument)
      (λ rules. settle-IsTracking v s _ _ rules.tick_size now live))

pub protected-active : (p : TrailingPhase) → not (is_protected p) ≡ false → is_active_phase p ≡ true
unfolding is_active_phase
protected-active p h = ground arith

pub synthetic-IsTracking :
    (v : Venue) (s : TrailingState) → IsTracking Evolves s (check_synthetic v s)
unfolding check_synthetic
synthetic-IsTracking v s =
    if-IsTracking Evolves s (not (is_protected s.phase)) (λ _. rest_here s)
      (λ h.
        quietly_on s _ _ (attempt-Leaves _ (read-IsQuiet v s))
          (λ a. reading-IsTracking v s a (protected-active s.phase h)))
