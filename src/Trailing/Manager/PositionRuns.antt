-- ===== src/Trailing/Manager/PositionRuns.antt =====
-- Updates of a position keep to the lifecycle.
use unified_trading_executio.Base.{
  ◌≡◌, refl, sym, subst, true, not, ◌&&◌, arith, Option, is_some, Result, ok, err, Bool-cases, inl,
  inr,
}
use unified_trading_executio.Decimal.{Decimal, pos, eqb_ℤ, abs_dec}
use unified_trading_executio.Types.{DateTime, Position}
use unified_trading_executio.Trailing.{
  TrailingPhase, TrailingState, Reason, degraded, arming, armed, triggered, is_active_phase,
  is_protection_error, protection_error, side_of, same_side, position_closed,
}
use unified_trading_executio.Trailing.Manager.{
  Venue, is_degraded, is_synthetic, may_reduce, is_allowed_transition, Verdict, confirmed, denied,
  degrade_now, counted_failure, degraded_by, protection_confirmed, resize_protection,
  resize_required, after_levels, after_resize, if_owned, resized, resize, update_position,
}
use unified_trading_executio.Trailing.Manager.Tracking.{IsTracking, if-IsTracking, pure-IsTracking}
use unified_trading_executio.Trailing.Manager.Quiet.{
  clock-IsQuiet, announce-IsQuiet, publish-IsQuiet, audit-IsQuiet, give-Leaves, if-Leaves,
  reserve-IsQuiet, attempt-Leaves, ensure-IsQuiet, modify-IsQuiet, spec-IsQuiet,
  confirm_levels-IsQuiet,
}
use unified_trading_executio.Trailing.Manager.Lifecycle.{
  Evolves, Evolves-refl, Evolves-step, Keeps, stay, edge-⟶*, ◌⟶*◌,
}
use unified_trading_executio.Trailing.Manager.ClosingRuns.{
  rest_here, quietly_on, writing, active-open, active-cancelled, settle_cancelled-IsTracking,
  close-IsTracking, replacement-IsQuiet,
}

pub active-degraded : (p : TrailingPhase) → is_active_phase p ≡ true → p ⟶* degraded
unfolding is_active_phase is_allowed_transition
active-degraded degraded h = stay
active-degraded arming h = edge-⟶* refl
active-degraded armed h = edge-⟶* refl
active-degraded triggered h = edge-⟶* refl
active-degraded _ h = absurd (cc h)

pub degraded-armed : (p : TrailingPhase) → is_degraded p ≡ true → p ⟶* armed
unfolding is_allowed_transition
degraded-armed degraded h = edge-⟶* refl
degraded-armed _ h = absurd (cc h)

pub degrade_now-IsTracking :
    (v : Venue) (s : TrailingState) (reason : Reason)
    → is_active_phase s.phase ≡ true
    → IsTracking Evolves s (degrade_now v s reason)
unfolding degrade_now
degrade_now-IsTracking v s reason live =
    quietly_on s _ _
      (if-Leaves (is_degraded s.phase) _ _ (give-Leaves tt) (ensure-IsQuiet s.phase degraded))
      (λ _. quietly_on s _ _ (clock-IsQuiet v) (λ now.
        let after = degraded_by (counted_failure s reason now) (protection_error reason) now in
        writing s after _
          (Evolves-step s after (active-open s.phase live) (active-degraded s.phase live)
            (ground arith))
          (quietly_on _ _ _
            (if-Leaves (is_degraded s.phase) _ _ (give-Leaves tt) (announce-IsQuiet s after reason))
            (λ _. rest_here _))))

confirmed-path :
    (s : TrailingState) (stop take_profit : Option Decimal) (now : DateTime)
    → s.phase ⟶* (protection_confirmed s stop take_profit now).0.phase
unfolding protection_confirmed
confirmed-path s stop take_profit now = elim (Bool-cases (is_degraded s.phase)) [
  | inl was ↦ elim (Bool-cases (is_protection_error s.last_error)) [
    | inl lost ↦ rw (was, lost) (degraded-armed s.phase was)
    | inr other ↦ rw (was, other) stay
  ]
  | inr healthy ↦ rw healthy stay
]

pub confirmed-Evolves :
    (s : TrailingState) (stop take_profit : Option Decimal) (now : DateTime)
    → is_active_phase s.phase ≡ true
    → Evolves s (protection_confirmed s stop take_profit now).0
unfolding protection_confirmed
confirmed-Evolves s stop take_profit now live =
    Evolves-step s (protection_confirmed s stop take_profit now).0 (active-open s.phase live)
      (confirmed-path s stop take_profit now) (ground arith)

after_levels-IsTracking :
    (v : Venue) (s : TrailingState) (verdict : Verdict (Option Decimal × Option Decimal))
    → is_active_phase s.phase ≡ true
    → IsTracking Evolves s (after_levels v s verdict)
after_levels-IsTracking v s (denied detail) live = degrade_now-IsTracking v s _ live
after_levels-IsTracking v s (confirmed (stop, take_profit)) live =
    quietly_on s _ _ (clock-IsQuiet v) (λ now.
      writing s (protection_confirmed s stop take_profit now).0 _
        (confirmed-Evolves s stop take_profit now live)
        (quietly_on _ _ _
          (if-Leaves (protection_confirmed s stop take_profit now).1 _ _ (publish-IsQuiet _ _ _)
            (give-Leaves tt))
          (λ _. quietly_on _ _ _ (audit-IsQuiet _ _ _ _ _) (λ _. rest_here _))))

after_resize-IsTracking :
    (v : Venue) (s : TrailingState) (stop take_profit : Option Decimal)
    (written : Result (Unit {0}))
    → is_active_phase s.phase ≡ true
    → IsTracking Evolves s (after_resize v s stop take_profit written)
after_resize-IsTracking v s stop take_profit (err e) live = degrade_now-IsTracking v s _ live
after_resize-IsTracking v s stop take_profit (ok _) live =
    quietly_on s _ _ (spec-IsQuiet v s.instrument) (λ spec.
      quietly_on s _ _ (confirm_levels-IsQuiet v s stop take_profit spec.tick_size)
        (λ verdict. after_levels-IsTracking v s verdict live))

resize_protection-IsTracking :
    (v : Venue) (s : TrailingState)
    → is_active_phase s.phase ≡ true
    → IsTracking Evolves s (resize_protection v s)
unfolding resize_protection
resize_protection-IsTracking v s live =
    let stop = if_owned s.stop_owned s.current_stop in
    let take_profit = if_owned s.take_profit_owned s.current_take_profit in
    if-IsTracking Evolves s (not (is_some stop) && not (is_some take_profit)) (λ _. rest_here s)
      (λ _.
        if-IsTracking Evolves s (not (may_reduce v s.instrument))
          (λ _. degrade_now-IsTracking v s _ live)
          (λ _. quietly_on s _ _ (reserve-IsQuiet v) (λ granted.
            if-IsTracking Evolves s granted
              (λ _.
                quietly_on s _ _ (attempt-Leaves _ (modify-IsQuiet v s take_profit stop))
                  (λ written. after_resize-IsTracking v s stop take_profit written live))
              (λ _. degrade_now-IsTracking v s _ live))))

-- A position with another quantity changes the state's levels only.
resized-Evolves :
    (s : TrailingState) (quantity entry_price : Decimal) (now : DateTime) (t : TrailingState)
    → is_active_phase s.phase ≡ true
    → resized s quantity entry_price now ≡ ok t
    → Evolves s t × (t.phase ≡ s.phase)
unfolding resized
resized-Evolves s quantity entry_price now t live h =
    let same : (t.phase ≡ s.phase) × Keeps s t = ground (arith, h) in
    (
      Evolves-step s t (active-open s.phase live) (subst (λ p. s.phase ⟶* p) (sym same.0) stay)
          same.1,
      same.0,
    )

resize-IsTracking :
    (v : Venue) (s : TrailingState) (p : Position) (now : DateTime)
    → is_active_phase s.phase ≡ true
    → IsTracking Evolves s (resize v s p now)
resize-IsTracking v s p now live =
    pure-IsTracking Evolves s (resized s (abs_dec p.quantity) p.average_entry_price now) _
      (Evolves-refl s)
      (λ t is_t.
        let (evolves, same) = resized-Evolves s _ _ now t live is_t in
        let live' : is_active_phase t.phase ≡ true = rw same live in
        writing s t _ evolves (
          if-IsTracking Evolves t
            (not (eqb_ℤ (abs_dec p.quantity) s.quantity)
              && (is_synthetic t.mode && resize_required v t))
            (λ _. resize_protection-IsTracking v t live') (λ _. rest_here t)))

pub update_position-IsTracking :
    (v : Venue) (p : Position) (s : TrailingState)
    → is_active_phase s.phase ≡ true
    → IsTracking Evolves s (update_position v p s)
unfolding update_position
update_position-IsTracking v p s live = quietly_on s _ _ (clock-IsQuiet v) (λ now.
    if-IsTracking Evolves s (eqb_ℤ p.quantity (pos 0))
      (λ _. close-IsTracking v s position_closed now)
      (λ _.
        if-IsTracking Evolves s (not (same_side (side_of p.quantity) s.side))
          (λ _. quietly_on s _ _ (replacement-IsQuiet v s true) (λ clearing.
            settle_cancelled-IsTracking s _ _ _ clearing.1 now (active-cancelled s.phase live)))
          (λ _. resize-IsTracking v s p now live)))
