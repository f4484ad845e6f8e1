-- ===== src/Trailing/Manager/Justified.antt =====
-- Why a ticker writes a stop to the platform (`on_ticker` of `trailing/manager.py`).
use unified_trading_executio.Base.{
  ◌≡◌, refl, sym, subst, inr, Bool, true, false, not, ◌&&◌, Option, none, some, is_some, Result, ok,
  err, arith, pure, attempt, ℕ_key, select-append,
}
use unified_trading_executio.Decimal.{Decimal, pos, ◌<ℤ◌, leb_ℤ_iff}
use unified_trading_executio.Types.{DateTime, InstrumentSpec}
use unified_trading_executio.Trailing.{
  TrailingState, is_fetch_error, is_activation_reached, update_best_basis, resolve_activation_price,
}
use unified_trading_executio.Trailing.Ratchet.{IsAccepted, ratchet_accepts_iff}
use unified_trading_executio.Trailing.Manager.{
  Venue, Call, modify_position_tpsl, TrailingManager, Step, ◌>>=◌, ◌>>◌, upsert_trailing_state,
  publish, write_audit, ask, modify_protection, check_level_price, attachment, is_degraded,
  may_reduce, recover_fetch_degraded, write_stop, attempted_at, try_candidate, is_worth_writing,
  next_stop, activate, follow, store_if, differs, sample,
}
use unified_trading_executio.Trailing.Manager.Quiet.{
  give-Leaves, pure-Leaves, >>=-Leaves, if-Leaves,
}
use unified_trading_executio.Trailing.Manager.Writes.{
  IsReading, IsGuarded, reading, reads_then, writes_then, either, then-at, IsGuarded-mono,
  clock-IsReading, store-IsReading, reset-IsReading, reserve-IsReading, spec-IsReading,
  gap-IsReading, failure-IsReading, written-IsReading, publish-IsReading, audit-IsReading,
}

pub record IsJustified (v : Venue) (s : TrailingState) (c : Call) : Type 0 where
  pub stop : Decimal
  pub request :
      c
      ≡ modify_position_tpsl s.instrument s.position_id none
          (attachment (some stop))
          s.protection_trigger_basis
  pub positive : pos 0 <ℤ stop
  pub tighter : IsAccepted s.side s.current_stop stop s.spec.step
  pub not_halted : may_reduce v s.instrument ≡ true

-- What of a state decides on a write.
pub record SameAim (s t : TrailingState) : Type 0 where
  pub same_spec : t.spec ≡ s.spec
  pub leg : (t.instrument ≡ s.instrument) × (t.position_id ≡ s.position_id) × (t.side ≡ s.side)
  pub levels :
      (t.current_stop ≡ s.current_stop) × (t.protection_trigger_basis ≡ s.protection_trigger_basis)

IsJustified-SameAim :
    (v : Venue) (s t : TrailingState) (c : Call)
    → SameAim s t
    → IsJustified v t c
    → IsJustified v s c
IsJustified-SameAim v s t c h j = record {
  stop = j.stop;
  request = ground (arith, h, j.request);
  positive = j.positive;
  tighter = rw (sym h.leg.2, sym h.levels.0, sym h.same_spec) j.tighter;
  not_halted = subst (λ i. may_reduce v i ≡ true) h.leg.0 j.not_halted;
}

check_at :
    {P : Call → Type 0} {B : Type 0} (r : Result (Unit {0})) (rest : Step B)
    → IsGuarded P rest
    → IsGuarded P (pure r >> rest)
check_at r rest h = reads_then (pure r) (λ _. rest) (pure-Leaves r) (λ _. h)

pub modify-IsGuarded :
    (P : Call → Type 0) (v : Venue) (s : TrailingState) (profit stop : Option Decimal)
    → P (
        modify_position_tpsl s.instrument s.position_id
          (attachment profit)
          (attachment stop)
          s.protection_trigger_basis)
    → IsGuarded P (modify_protection v s profit stop)
unfolding modify_protection ask
modify-IsGuarded P v s profit stop p = check_at (check_level_price profit) _ (
    check_at (check_level_price stop) _
      (record { at = λ m. inr (_, select-append _ m.calls _, p) }))

pub attempt-IsGuarded :
    {P : Call → Type 0} {A : Type 0} (step : Step A) → IsGuarded P step → IsGuarded P (attempt step)
unfolding attempt
attempt-IsGuarded step h = record { at = h.at }

worth :
    (v : Venue) (s : TrailingState) (spec : InstrumentSpec) (basis c : Decimal) (now : DateTime)
    → is_worth_writing v s spec basis c now ≡ true
    → IsJustified v s (
        modify_position_tpsl s.instrument s.position_id none
          (attachment (some c))
          s.protection_trigger_basis)
unfolding is_worth_writing
worth v s spec basis c now h = record {
  stop = c;
  request = refl;
  positive = ground (arith, leb_ℤ_iff c (pos 0));
  tighter = (ratchet_accepts_iff s.side s.current_stop c s.spec.step).0 (ground arith);
  not_halted = ground arith;
}

write_stop-IsGuarded :
    (v : Venue) (s : TrailingState) (spec : InstrumentSpec) (c : Decimal)
    (activation : Option Decimal) (now : DateTime)
    → IsJustified v s (
        modify_position_tpsl s.instrument s.position_id none
          (attachment (some c))
          s.protection_trigger_basis)
    → IsGuarded (IsJustified v s) (write_stop v s spec c activation now)
unfolding write_stop
write_stop-IsGuarded v s spec c activation now j =
    reads_then _ _ (gap-IsReading v (attempted_at s now) _ _ _) (λ _.
      writes_then _ _
        (attempt-IsGuarded _
          (modify-IsGuarded (IsJustified v s) v (attempted_at s now) none (some c) j))
        (λ written. written-IsReading v (attempted_at s now) spec c activation now written))

candidate-IsGuarded :
    (v : Venue) (s : TrailingState) (spec : InstrumentSpec) (basis : Decimal)
    (activation : Option Decimal) (now : DateTime) (candidate : Result Decimal)
    → IsGuarded (IsJustified v s) (try_candidate v s spec basis activation now candidate)
candidate-IsGuarded v s spec basis activation now (err e) = reading _ (failure-IsReading v s _)
candidate-IsGuarded v s spec basis activation now (ok c) =
    either (is_worth_writing v s spec basis c now)
      (λ good. reads_then _ _ (reserve-IsReading v) (λ granted.
        either granted
          (λ _. write_stop-IsGuarded v s spec c activation now (worth v s spec basis c now good))
          (λ _. reading _ (give-Leaves s))))
      (λ _. reading _ (give-Leaves s))

activate-IsReading : (s : TrailingState) (now : DateTime) → IsReading (activate s now)
unfolding activate
activate-IsReading s now = >>=-Leaves _ _ (store-IsReading _) (λ _.
    >>=-Leaves _ _ (publish-IsReading _ _ _)
      (λ _. >>=-Leaves _ _ (audit-IsReading _ _ _ _ _) (λ _. give-Leaves _)))

follow-IsGuarded :
    (v : Venue) (s : TrailingState) (basis best : Decimal) (activation : Option Decimal)
    (now : DateTime)
    → IsGuarded (IsJustified v s) (follow v s basis best activation now)
unfolding follow
follow-IsGuarded v s basis best activation now =
    either (not (is_activation_reached s.side basis activation)) (λ _. reading _ (give-Leaves s))
      (λ _.
        either (not s.activated && is_some s.current_stop)
          (λ _. reading _ (activate-IsReading s now))
          (λ _.
            reads_then _ _ (spec-IsReading v s.instrument)
              (λ spec. candidate-IsGuarded v s spec basis activation now (next_stop s best spec))))

-- The step writes nothing, and the state that it returns has the same aim.
record IsAiming (s : TrailingState) (step : Step TrailingState) : Type 0 where
  quiet : IsReading step
  aim : (m : TrailingManager) (t : TrailingState) → (step m).1 ≡ ok t → SameAim s t

recover-IsReading : (s : TrailingState) (now : DateTime) → IsReading (recover_fetch_degraded s now)
unfolding recover_fetch_degraded
recover-IsReading s now =
    if-Leaves (is_degraded s.phase && is_fetch_error s.last_error) _ _
      (>>=-Leaves _ _ (store-IsReading _) (λ _.
        >>=-Leaves _ _ (publish-IsReading _ _ _)
          (λ _. >>=-Leaves _ _ (audit-IsReading _ _ _ _ _) (λ _. give-Leaves _))))
      (give-Leaves s)

recover-IsAiming : (s : TrailingState) (now : DateTime) → IsAiming s (recover_fetch_degraded s now)
unfolding recover_fetch_degraded upsert_trailing_state publish write_audit
recover-IsAiming s now = record {
  quiet = recover-IsReading s now;
  aim = λ m t h. ground (arith, h);
}

store_if-IsAiming : (b : Bool) (s t : TrailingState) → SameAim s t → IsAiming s (store_if b s t)
unfolding upsert_trailing_state
store_if-IsAiming true s t h = record {
  quiet = >>=-Leaves _ _ (store-IsReading t) (λ _. give-Leaves t);
  aim = λ m u e. let same : t ≡ u = cc e in subst (SameAim s) same h;
}
store_if-IsAiming false s t h = record {
  quiet = give-Leaves s;
  aim = λ m u e. let same : s ≡ u = cc e in ground (arith, same);
}

aims_then :
    (v : Venue) (s : TrailingState) (step : Step TrailingState)
    (rest : TrailingState → Step TrailingState)
    → IsAiming s step
    → ((t : TrailingState) → IsGuarded (IsJustified v t) (rest t))
    → IsGuarded (IsJustified v s) (step >>= rest)
aims_then v s step rest h k = record {
  at = λ m.
      then-at m (step m) rest (h.quiet.same m)
        (λ t is_t. IsGuarded-mono (λ c. IsJustified-SameAim v s t c (h.aim m t is_t)) (k t));
}

pub sample-IsGuarded :
    (v : Venue) (s : TrailingState) (basis : Decimal)
    → IsGuarded (IsJustified v s) (sample v s basis)
unfolding sample
sample-IsGuarded v s basis = reads_then _ _ (reset-IsReading s.trailing_id) (λ _.
    reads_then _ _ (clock-IsReading v) (λ now. aims_then v s _ _ (recover-IsAiming s now) (λ r.
      let best = update_best_basis r.side r.best_basis basis in
      aims_then v r _ _
        (store_if-IsAiming (differs (some best) r.best_basis) r
          (record r { best_basis = some best; updated_at = now }) (ground arith))
        (λ n.
          reads_then _ _ (pure-Leaves (resolve_activation_price n.spec n.side n.entry_price))
            (λ activation.
              aims_then v n _ _
                (store_if-IsAiming (differs activation n.resolved_activation_price) n
                  (record n { resolved_activation_price = activation; updated_at = now })
                  (ground arith))
                (λ a. follow-IsGuarded v a basis best activation now))))))
