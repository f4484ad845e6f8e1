-- ===== src/Trailing/Manager/TickerRuns.antt =====
-- Tickers, ATRs and failures keep to the lifecycle.
use unified_trading_executio.Base.{
  is_some, ◌+◌, ◌≡◌, refl, sym, subst, Bool, true, false, not, ◌&&◌, Option, none, some, arith,
  if◌then◌else◌, Bool-cases, inl, inr, Result, ok, err,
}
use unified_trading_executio.Decimal.{Decimal, pos, ltb_ℤ}
use unified_trading_executio.Types.{DateTime, InstrumentSpec}
use unified_trading_executio.Trailing.{
  is_activation_reached, update_best_basis, resolve_activation_price, degraded, TrailingState,
  Reason, is_protection_error, is_fetch_error, fetch_error, protection_error,
}
use unified_trading_executio.Trailing.Manager.{
  Venue, Step, is_worth_writing, differs, protection_lost, after_verdict, after_write, with_stop,
  Verdict, confirmed, denied, write_stop, attempted_at, try_candidate, follow, sample, activate,
  activated_at, store_if, next_stop, ◌>>=◌, ◌>>◌, give, is_watched, is_degraded,
  upsert_trailing_state, record_fetch_failure, recover_fetch_degraded, record_protection_failure,
  degraded_by, recovered_at, counted_failure,
}
use unified_trading_executio.Trailing.Manager.Tracking.{
  IsTracking, IsQuiet, give-IsTracking, quiet-IsTracking, store-IsTracking, bind-IsTracking,
  if-IsTracking,
}
use unified_trading_executio.Trailing.Manager.Quiet.{
  publish-IsQuiet, audit-IsQuiet, clock-IsQuiet, announce-IsQuiet, bump_fetch-IsQuiet, pure-Leaves,
  ensure-IsTracking, gap_audit-IsQuiet, confirm_stop-IsQuiet, reset_fetch-IsQuiet, reserve-IsQuiet,
  attempt-Leaves, modify-IsQuiet, spec-IsQuiet,
}
use unified_trading_executio.Trailing.Manager.Lifecycle.{
  Watches, Keeps, ◌⟶*◌, Watches-refl, Watches-trans, Watches-step, armed-degraded, watched-armed,
  stay,
}

-- Rules of `IsTracking` for these steps.
pub still : (s : TrailingState) → IsTracking Watches s (give s)
still s = give-IsTracking Watches s (Watches-refl s)

pub quietly :
    {A : Type 0} (s : TrailingState) (step : Step A) (rest : A → Step TrailingState)
    → IsQuiet step
    → ((a : A) → IsTracking Watches s (rest a))
    → IsTracking Watches s (step >>= rest)
quietly s step rest = quiet-IsTracking Watches s step rest (Watches-refl s)

pub storing :
    (s t : TrailingState) (rest : Step TrailingState)
    → Watches s t
    → IsTracking Watches t rest
    → IsTracking Watches s (upsert_trailing_state t >> rest)
storing s t rest w =
    store-IsTracking Watches s t rest w.evolves.keeps.same_id (λ u. Watches-trans s t u w)

pub branch :
    (s : TrailingState) (b : Bool) {x y : Step TrailingState}
    → (b ≡ true → IsTracking Watches s x)
    → (b ≡ false → IsTracking Watches s y)
    → IsTracking Watches s (if b then x else y)
branch s = if-IsTracking Watches s

next :
    (s : TrailingState) (step : Step TrailingState) (rest : TrailingState → Step TrailingState)
    → IsTracking Watches s step
    → ((t : TrailingState) → Watches s t → IsTracking Watches t (rest t))
    → IsTracking Watches s (step >>= rest)
next s step rest = bind-IsTracking Watches s step rest (λ t u. Watches-trans s t u)

-- A state whose levels and times change, and not its phase.
pub aside :
    (s t : TrailingState) → is_watched s.phase ≡ true → t.phase ≡ s.phase → Keeps s t → Watches s t
aside s t w same keeps =
    Watches-step s t w (subst (λ p. s.phase ⟶* p) (sym same) stay) (rw same w) keeps

pub record_fetch_failure-IsTracking :
    (v : Venue) (s : TrailingState) (reason : Reason)
    → is_watched s.phase ≡ true
    → IsTracking Watches s (record_fetch_failure v s reason)
unfolding record_fetch_failure
record_fetch_failure-IsTracking v s reason w = quietly s _ _ (bump_fetch-IsQuiet _) (λ n.
    branch s (ltb_ℤ (pos n) v.config.fetch_failure_threshold) (λ _. still s)
      (λ _.
        branch s (is_degraded s.phase) (λ _. still s)
          (λ healthy. quietly s _ _ (clock-IsQuiet v) (λ now.
            storing s (degraded_by s (fetch_error reason) now) _
              (Watches-step s _ w (armed-degraded s.phase w healthy) refl (ground arith))
              (quietly _ _ _ (announce-IsQuiet s _ reason) (λ _. still _))))))

recover_fetch_degraded-IsTracking :
    (s : TrailingState) (now : DateTime)
    → is_watched s.phase ≡ true
    → IsTracking Watches s (recover_fetch_degraded s now)
unfolding recover_fetch_degraded
recover_fetch_degraded-IsTracking s now w =
    branch s (is_degraded s.phase && is_fetch_error s.last_error)
      (λ _.
        storing s (recovered_at s now) _
          (Watches-step s _ w (watched-armed s.phase w) refl (ground arith))
          (quietly _ _ _ (publish-IsQuiet _ _ _)
            (λ _. quietly _ _ _ (audit-IsQuiet _ _ _ _ _) (λ _. still _))))
      (λ _. still s)

-- The row is `s`; the state in hand, which may have been attempted to be repriced, is `t`.
record_protection_failure-IsTracking :
    (v : Venue) (s t : TrailingState) (reason : Reason)
    → Watches s t
    → is_watched t.phase ≡ true
    → IsTracking Watches s (record_protection_failure v t reason)
unfolding record_protection_failure
record_protection_failure-IsTracking v s t reason h w = quietly s _ _ (clock-IsQuiet v) (λ now.
    let counted =
      storing s (counted_failure t reason now) (give (counted_failure t reason now))
        (Watches-trans s t _ h (aside t (counted_failure t reason now) w refl (ground arith)))
        (still _) in
    branch s (is_degraded t.phase) (λ _. counted)
      (λ healthy.
        branch s (ltb_ℤ (pos (t.failure_count + 1)) v.config.protection_failure_threshold)
          (λ _. counted)
          (λ _. ensure-IsTracking Watches s t.phase degraded _ (Watches-refl s) (λ _.
            let after = degraded_by (counted_failure t reason now) (protection_error reason) now in
            storing s after _
              (Watches-trans s t after h
                (Watches-step t after w (armed-degraded t.phase w healthy) refl (ground arith)))
              (quietly _ _ _ (announce-IsQuiet t _ reason) (λ _. still _))))))

confirmed-Watches :
    (s : TrailingState) (stop : Decimal) (activation : Option Decimal) (now : DateTime)
    → is_watched s.phase ≡ true
    → Watches s (with_stop s stop activation now)
confirmed-Watches s stop activation now w = elim (Bool-cases (is_protection_error s.last_error)) [
  | inl lost ↦
      Watches-step s (with_stop s stop activation now) w (rw lost (watched-armed s.phase w))
        (rw lost refl) (ground arith)
  | inr other ↦
      Watches-step s (with_stop s stop activation now) w (rw other stay) (rw other w) (ground arith)
]

lost-IsTracking :
    (v : Venue) (s t : TrailingState) (reason : Reason)
    → Watches s t
    → is_watched t.phase ≡ true
    → IsTracking Watches s (protection_lost v t reason)
unfolding protection_lost
lost-IsTracking v s t reason h w =
    quietly s _ _ (gap_audit-IsQuiet v t _ _ _)
      (λ _. record_protection_failure-IsTracking v s t reason h w)

after_verdict-IsTracking :
    (v : Venue) (s t : TrailingState) (activation : Option Decimal) (now : DateTime)
    (verdict : Verdict Decimal)
    → Watches s t
    → is_watched t.phase ≡ true
    → IsTracking Watches s (after_verdict v t activation now verdict)
after_verdict-IsTracking v s t activation now (denied detail) h w = lost-IsTracking v s t _ h w
after_verdict-IsTracking v s t activation now (confirmed stop) h w =
    storing s (with_stop t stop activation now) _
      (Watches-trans s t _ h (confirmed-Watches t stop activation now w))
      (quietly _ _ _ (publish-IsQuiet _ _ _) (λ _.
        quietly _ _ _ (gap_audit-IsQuiet v _ _ _ _)
          (λ _. quietly _ _ _ (audit-IsQuiet _ _ _ _ _) (λ _. still _))))

after_write-IsTracking :
    (v : Venue) (s t : TrailingState) (spec : InstrumentSpec) (c : Decimal)
    (activation : Option Decimal) (now : DateTime) (written : Result (Unit {0}))
    → Watches s t
    → is_watched t.phase ≡ true
    → IsTracking Watches s (after_write v t spec c activation now written)
after_write-IsTracking v s t spec c activation now (err e) h w = lost-IsTracking v s t _ h w
after_write-IsTracking v s t spec c activation now (ok _) h w =
    quietly s _ _ (confirm_stop-IsQuiet v t c spec.tick_size)
      (λ verdict. after_verdict-IsTracking v s t activation now verdict h w)

write_stop-IsTracking :
    (v : Venue) (s : TrailingState) (spec : InstrumentSpec) (c : Decimal)
    (activation : Option Decimal) (now : DateTime)
    → is_watched s.phase ≡ true
    → IsTracking Watches s (write_stop v s spec c activation now)
unfolding write_stop
write_stop-IsTracking v s spec c activation now w =
    let t = attempted_at s now in
    quietly s _ _ (gap_audit-IsQuiet v t _ _ _) (λ _.
      quietly s _ _ (attempt-Leaves _ (modify-IsQuiet v t none (some c))) (λ written.
        after_write-IsTracking v s t spec c activation now written (aside s t w refl (ground arith))
          w))

try_candidate-IsTracking :
    (v : Venue) (s : TrailingState) (spec : InstrumentSpec) (basis : Decimal)
    (activation : Option Decimal) (now : DateTime) (candidate : Result Decimal)
    → is_watched s.phase ≡ true
    → IsTracking Watches s (try_candidate v s spec basis activation now candidate)
try_candidate-IsTracking v s spec basis activation now (err e) w =
    record_protection_failure-IsTracking v s s _ (Watches-refl s) w
try_candidate-IsTracking v s spec basis activation now (ok c) w =
    branch s (is_worth_writing v s spec basis c now)
      (λ _. quietly s _ _ (reserve-IsQuiet v) (λ granted.
        branch s granted (λ _. write_stop-IsTracking v s spec c activation now w) (λ _. still s)))
      (λ _. still s)

activate-IsTracking :
    (s : TrailingState) (now : DateTime)
    → is_watched s.phase ≡ true
    → IsTracking Watches s (activate s now)
unfolding activate
activate-IsTracking s now w =
    storing s (activated_at s now) _ (aside s (activated_at s now) w refl (ground arith)) (
      quietly _ _ _ (publish-IsQuiet _ _ _)
        (λ _. quietly _ _ _ (audit-IsQuiet _ _ _ _ _) (λ _. still _)))

follow-IsTracking :
    (v : Venue) (s : TrailingState) (basis best : Decimal) (activation : Option Decimal)
    (now : DateTime)
    → is_watched s.phase ≡ true
    → IsTracking Watches s (follow v s basis best activation now)
unfolding follow
follow-IsTracking v s basis best activation now w =
    branch s (not (is_activation_reached s.side basis activation)) (λ _. still s)
      (λ _.
        branch s (not s.activated && is_some s.current_stop) (λ _. activate-IsTracking s now w)
          (λ _. quietly s _ _ (spec-IsQuiet v s.instrument) (λ spec.
            try_candidate-IsTracking v s spec basis activation now (next_stop s best spec) w)))

store_if-IsTracking :
    (changed : Bool) (s t : TrailingState)
    → Watches s t
    → IsTracking Watches s (store_if changed s t)
store_if-IsTracking true s t h = storing s t _ h (still t)
store_if-IsTracking false s t h = still s

pub sample-IsTracking :
    (v : Venue) (s : TrailingState) (basis : Decimal)
    → is_watched s.phase ≡ true
    → IsTracking Watches s (sample v s basis)
unfolding sample
sample-IsTracking v s basis w = quietly s _ _ (reset_fetch-IsQuiet s.trailing_id) (λ _.
    quietly s _ _ (clock-IsQuiet v) (λ now.
      next s _ _ (recover_fetch_degraded-IsTracking s now w) (λ r back.
        next r _ _
          (store_if-IsTracking
            (differs (some (update_best_basis r.side r.best_basis basis)) r.best_basis) r
            (record r {
              best_basis = some (update_best_basis r.side r.best_basis basis);
              updated_at = now;
            })
            (aside r _ (back.watched w) refl (ground arith)))
          (λ n noted.
            quietly n _ _ (pure-Leaves (resolve_activation_price n.spec n.side n.entry_price))
              (λ activation.
                next n _ _
                  (store_if-IsTracking (differs activation n.resolved_activation_price) n
                    (record n { resolved_activation_price = activation; updated_at = now })
                    (aside n _ (noted.watched (back.watched w)) refl (ground arith)))
                  (λ a aimed.
                    follow-IsTracking v a basis (update_best_basis r.side r.best_basis basis)
                      activation now (aimed.watched (noted.watched (back.watched w)))))))))
