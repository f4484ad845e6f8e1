-- ===== src/Trailing/Manager/NativeRuns.antt =====
-- The check of a native trailing stop keeps to the lifecycle.
use unified_trading_executio.Base.{
  ◌≡◌, refl, Bool, true, false, not, ◌&&◌, arith, Option, none, some, List, Result, ok, err, ℕ_key,
  if◌then◌else◌, pure,
}
use unified_trading_executio.Types.{Ident, DateTime, Position, InstrumentSpec}
use unified_trading_executio.Trailing.{
  TrailingPhase, TrailingState, degraded, arming, armed, triggered, done, cancelled, failed,
  is_active_phase, position_closed, is_protection_error, IdentityNote, NativeTrailingResult,
  TrailingMode, native, synthetic, auto, recovery_identity,
}
use unified_trading_executio.Trailing.Manager.{
  Venue, ◌>>=◌, is_degraded, is_allowed_transition, may_reduce, is_protected, read_trail,
  native_request, place_trail, synced, trail_found, rearmed, keeps_phase, after_rearming, rearm,
  after_trail_answer, read_known_trail, after_identity, after_spec, check_open_leg, check_native,
  check_mode, is_triggered, differs,
}
use unified_trading_executio.Trailing.Manager.Tracking.{IsTracking, IsQuiet, if-IsTracking}
use unified_trading_executio.Trailing.Manager.Quiet.{
  clock-IsQuiet, publish-IsQuiet, audit-IsQuiet, give-Leaves, if-Leaves, pure-Leaves, >>=-Leaves,
  reserve-IsQuiet, attempt-Leaves, spec-IsQuiet,
}
use unified_trading_executio.Trailing.Manager.Lifecycle.{Evolves, Evolves-step, stay, edge-⟶*, ◌⟶*◌}
use unified_trading_executio.Trailing.Manager.ClosingRuns.{
  rest_here, quietly_on, writing, active-open, close-IsTracking,
}
use unified_trading_executio.Trailing.Manager.PositionRuns.{degrade_now-IsTracking}
use unified_trading_executio.Trailing.Manager.IntegrityRuns.{
  failure-IsTracking, protected-active, synthetic-IsTracking,
}

trail-IsQuiet :
    (v : Venue) (s : TrailingState) (i : Option Ident) → IsQuiet (read_known_trail v s i)
unfolding read_trail
trail-IsQuiet v s none = give-Leaves none
trail-IsQuiet v s (some i) = record { same = λ m. refl }

place-IsQuiet :
    (v : Venue) (s : TrailingState) (leg : Position)
    → IsQuiet (pure (native_request s leg) >>= place_trail v)
unfolding place_trail
place-IsQuiet v s leg =
    >>=-Leaves _ _ (pure-Leaves (native_request s leg)) (λ r. record { same = λ m. refl })

synced_phase :
    (p : TrailingPhase) (lost : Bool)
    → p ⟶* (if is_triggered p then triggered else if is_degraded p && lost then armed else p)
unfolding is_allowed_transition
synced_phase arming lost = stay
synced_phase armed lost = stay
synced_phase triggered lost = stay
synced_phase done lost = stay
synced_phase cancelled lost = stay
synced_phase degraded true = edge-⟶* refl
synced_phase degraded false = stay
synced_phase failed lost = stay

rearmed_phase :
    (p : TrailingPhase)
    → not (is_protected p) ≡ false
    → p ⟶* (if is_triggered p then triggered else armed)
unfolding is_allowed_transition
rearmed_phase armed h = stay
rearmed_phase triggered h = stay
rearmed_phase degraded h = edge-⟶* refl
rearmed_phase arming h = absurd (cc h)
rearmed_phase done h = absurd (cc h)
rearmed_phase cancelled h = absurd (cc h)
rearmed_phase failed h = absurd (cc h)

trail_found-IsTracking :
    (s : TrailingState) (n : NativeTrailingResult) (now : DateTime)
    → is_active_phase s.phase ≡ true
    → IsTracking Evolves s (trail_found s n now)
unfolding trail_found
trail_found-IsTracking s n now live =
    let lost = is_degraded s.phase && is_protection_error s.last_error in
    if-IsTracking Evolves s (not lost && not (differs n.current_stop s.current_stop))
      (λ _. rest_here s)
      (λ _.
        writing s (synced s n lost now) _
          (Evolves-step s (synced s n lost now) (active-open s.phase live)
            (synced_phase s.phase (is_protection_error s.last_error)) (ground arith))
          (quietly_on _ _ _
            (if-Leaves lost _ _
              (>>=-Leaves _ _ (publish-IsQuiet _ _ _) (λ _. audit-IsQuiet _ _ _ _ _))
              (give-Leaves tt))
            (λ _. rest_here _)))

after_rearming-IsTracking :
    (v : Venue) (s : TrailingState) (now : DateTime) (r : Result NativeTrailingResult)
    → not (is_protected s.phase) ≡ false
    → IsTracking Evolves s (after_rearming v s now r)
after_rearming-IsTracking v s now (err e) h =
    degrade_now-IsTracking v s _ (protected-active s.phase h)
after_rearming-IsTracking v s now (ok n) h =
    writing s (rearmed s n now) _
      (Evolves-step s (rearmed s n now) (active-open s.phase (protected-active s.phase h))
        (rearmed_phase s.phase h) (ground arith))
      (quietly_on _ _ _
        (if-Leaves (keeps_phase s.phase) _ _ (give-Leaves tt) (publish-IsQuiet _ _ _))
        (λ _. quietly_on _ _ _ (audit-IsQuiet _ _ _ _ _) (λ _. rest_here _)))

rearm-IsTracking :
    (v : Venue) (s : TrailingState) (leg : Position) (now : DateTime)
    → not (is_protected s.phase) ≡ false
    → IsTracking Evolves s (rearm v s leg now)
unfolding rearm
rearm-IsTracking v s leg now h =
    if-IsTracking Evolves s (not (may_reduce v s.instrument))
      (λ _. degrade_now-IsTracking v s _ (protected-active s.phase h))
      (λ _. quietly_on s _ _ (reserve-IsQuiet v) (λ granted.
        if-IsTracking Evolves s granted
          (λ _.
            quietly_on s _ _ (attempt-Leaves _ (place-IsQuiet v s leg))
              (λ r. after_rearming-IsTracking v s now r h))
          (λ _. rest_here s)))

answer-IsTracking :
    (v : Venue) (s : TrailingState) (leg : Position) (now : DateTime)
    (r : Result (Option NativeTrailingResult))
    → not (is_protected s.phase) ≡ false
    → IsTracking Evolves s (after_trail_answer v s leg now r)
answer-IsTracking v s leg now (err e) h = failure-IsTracking v s _ (protected-active s.phase h)
answer-IsTracking v s leg now (ok none) h = rearm-IsTracking v s leg now h
answer-IsTracking v s leg now (ok (some n)) h =
    trail_found-IsTracking s n now (protected-active s.phase h)

identity-IsTracking :
    (v : Venue) (s : TrailingState) (leg : Position) (now : DateTime) (lost : Option IdentityNote)
    → not (is_protected s.phase) ≡ false
    → IsTracking Evolves s (after_identity v s leg now lost)
identity-IsTracking v s leg now (some n) h =
    degrade_now-IsTracking v s _ (protected-active s.phase h)
identity-IsTracking v s leg now none h =
    quietly_on s _ _ (attempt-Leaves _ (trail-IsQuiet v s s.native_id))
      (λ r. answer-IsTracking v s leg now r h)

spec-IsTracking :
    (v : Venue) (s : TrailingState) (leg : Position) (now : DateTime) (r : Result InstrumentSpec)
    → not (is_protected s.phase) ≡ false
    → IsTracking Evolves s (after_spec v s leg now r)
unfolding recovery_identity
spec-IsTracking v s leg now (err e) h = failure-IsTracking v s _ (protected-active s.phase h)
spec-IsTracking v s leg now (ok rules) h = identity-IsTracking v s leg now _ h

leg-IsTracking :
    (v : Venue) (s : TrailingState) (now : DateTime) (leg : Option Position)
    → not (is_protected s.phase) ≡ false
    → IsTracking Evolves s (check_open_leg v s now leg)
leg-IsTracking v s now none h = close-IsTracking v s position_closed now
leg-IsTracking v s now (some leg) h =
    quietly_on s _ _ (attempt-Leaves _ (spec-IsQuiet v s.instrument))
      (λ r. spec-IsTracking v s leg now r h)

native-IsTracking :
    (v : Venue) (legs : List Position) (s : TrailingState)
    → IsTracking Evolves s (check_native v legs s)
unfolding check_native
native-IsTracking v legs s =
    if-IsTracking Evolves s (not (is_protected s.phase)) (λ _. rest_here s)
      (λ h. quietly_on s _ _ (clock-IsQuiet v) (λ now. leg-IsTracking v s now _ h))

pub check_mode-IsTracking :
    (mode : TrailingMode) (v : Venue) (legs : List Position) (s : TrailingState)
    → IsTracking Evolves s (check_mode mode v legs s)
check_mode-IsTracking native v legs s = native-IsTracking v legs s
check_mode-IsTracking synthetic v legs s = synthetic-IsTracking v s
check_mode-IsTracking auto v legs s = rest_here s
