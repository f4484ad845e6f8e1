-- ===== src/Trailing/Manager/ClosingRuns.antt =====
-- Cancelling a state and updating its position keep to the lifecycle.
use unified_trading_executio.Base.{
  ◌≡◌, refl, Bool, true, false, not, ◌&&◌, ◌||◌, arith, Option, none, some, Result, ok, err,
}
use unified_trading_executio.Types.{Ident, DateTime}
use unified_trading_executio.Trailing.{
  TrailingPhase, TrailingState, Reason, Note, notes, cancelled, done, failed, is_active_phase,
  is_terminal_phase,
}
use unified_trading_executio.Trailing.Manager.{
  Venue, Call, Step, Protection, ◌>>=◌, ◌>>◌, give, is_native, may_reduce, is_allowed_transition,
  clear_sides, clear_read, clear_owned_protection, cancel_native_trail, native_trail, trail_gone,
  clear_for_replacement, audit_clear, settle_cancelled, cancelled_at, failed_at, done_at,
  is_blocked, as_list, note_text, upsert_trailing_state, cancel_state, complete_position_close,
}
use unified_trading_executio.Trailing.Manager.Tracking.{
  IsTracking, IsQuiet, give-IsTracking, quiet-IsTracking, store-IsTracking, if-IsTracking,
}
use unified_trading_executio.Trailing.Manager.Quiet.{
  clock-IsQuiet, publish-IsQuiet, audit-IsQuiet, >>=-Leaves, give-Leaves, if-Leaves,
  reserve-IsQuiet, ask-IsQuiet, read-IsQuiet, attempt-Leaves, ensure-IsTracking,
}
use unified_trading_executio.Trailing.Manager.Lifecycle.{
  Evolves, Evolves-refl, Evolves-trans, Evolves-step, edge-⟶*,
}

clear_sides-IsQuiet :
    (v : Venue) (s : TrailingState) (take_profit stop : Bool)
    → IsQuiet (clear_sides v s take_profit stop)
clear_sides-IsQuiet v s take_profit stop =
    if-Leaves (not take_profit && not stop) _ _ (give-Leaves _) (
      >>=-Leaves _ _ (reserve-IsQuiet v) (λ granted.
        if-Leaves granted _ _
          (>>=-Leaves _ _ (attempt-Leaves _ (ask-IsQuiet v _)) (λ answer. give-Leaves _))
          (give-Leaves _)))

clear_read-IsQuiet :
    (v : Venue) (s : TrailingState) (r : Result (Option Protection)) → IsQuiet (clear_read v s r)
clear_read-IsQuiet v s (err e) = give-Leaves _
clear_read-IsQuiet v s (ok current) = clear_sides-IsQuiet v s _ _

clear_owned-IsQuiet : (v : Venue) (s : TrailingState) → IsQuiet (clear_owned_protection v s)
unfolding clear_owned_protection
clear_owned-IsQuiet v s =
    if-Leaves (not s.stop_owned && not s.take_profit_owned) _ _ (give-Leaves _) (
      if-Leaves (not (may_reduce v s.instrument)) _ _ (give-Leaves _) (
        >>=-Leaves _ _ (attempt-Leaves _ (read-IsQuiet v s))
          (λ current. clear_read-IsQuiet v s current)))

gone-IsQuiet : (v : Venue) (c : Call) → IsQuiet (trail_gone v c)
unfolding trail_gone
gone-IsQuiet v c = record { same = λ m. refl }

audit_clear-IsQuiet :
    (b : Bool) (s t : TrailingState) (note : Option Reason) → IsQuiet (audit_clear b s t note)
unfolding audit_clear
audit_clear-IsQuiet false s t told = give-Leaves tt
audit_clear-IsQuiet true s t told = audit-IsQuiet _ _ _ _ _

native_trail-IsQuiet :
    (v : Venue) (s : TrailingState) (i : Option Ident) → IsQuiet (native_trail v s i)
native_trail-IsQuiet v s none = give-Leaves _
native_trail-IsQuiet v s (some i) =
    if-Leaves (not (may_reduce v s.instrument)) _ _ (give-Leaves _) (
      >>=-Leaves _ _ (reserve-IsQuiet v) (λ granted.
        if-Leaves granted _ _
          (>>=-Leaves _ _
            (attempt-Leaves _ (>>=-Leaves _ _ (ask-IsQuiet v _) (λ _. gone-IsQuiet v _)))
            (λ remains. give-Leaves _))
          (give-Leaves _)))

cancel_trail-IsQuiet : (v : Venue) (s : TrailingState) → IsQuiet (cancel_native_trail v s)
unfolding cancel_native_trail
cancel_trail-IsQuiet v s =
    if-Leaves (is_native s.mode) _ _ (native_trail-IsQuiet v s s.native_id) (give-Leaves _)

pub replacement-IsQuiet :
    (v : Venue) (s : TrailingState) (static : Bool) → IsQuiet (clear_for_replacement v s static)
unfolding clear_for_replacement
replacement-IsQuiet v s static = >>=-Leaves _ _ (cancel_trail-IsQuiet v s) (λ trail.
    >>=-Leaves _ _
      (if-Leaves (static && (s.stop_owned || s.take_profit_owned)) _ _ (clear_owned-IsQuiet v s)
        (give-Leaves _))
      (λ levels. give-Leaves _))

-- Rules of `IsTracking` for these steps.
pub rest_here : (s : TrailingState) → IsTracking Evolves s (give s)
rest_here s = give-IsTracking Evolves s (Evolves-refl s)

pub quietly_on :
    {A : Type 0} (s : TrailingState) (step : Step A) (rest : A → Step TrailingState)
    → IsQuiet step
    → ((a : A) → IsTracking Evolves s (rest a))
    → IsTracking Evolves s (step >>= rest)
quietly_on s step rest = quiet-IsTracking Evolves s step rest (Evolves-refl s)

pub writing :
    (s t : TrailingState) (rest : Step TrailingState)
    → Evolves s t
    → IsTracking Evolves t rest
    → IsTracking Evolves s (upsert_trailing_state t >> rest)
writing s t rest h = store-IsTracking Evolves s t rest h.keeps.same_id (λ u. Evolves-trans s t u h)

allowed-open :
    (p q : TrailingPhase) → is_allowed_transition p q ≡ true → is_terminal_phase p ≡ false
unfolding is_allowed_transition is_terminal_phase
allowed-open p q h = ground arith

pub active-open : (p : TrailingPhase) → is_active_phase p ≡ true → is_terminal_phase p ≡ false
unfolding is_active_phase is_terminal_phase
active-open p h = ground arith

pub active-cancelled :
    (p : TrailingPhase) → is_active_phase p ≡ true → is_allowed_transition p cancelled ≡ true
unfolding is_active_phase is_allowed_transition
active-cancelled p h = ground arith

pub settle_cancelled-IsTracking :
    (s : TrailingState) (error : Option Note) (reason : Reason) (note : Option Reason)
    (was_cleared : Bool) (now : DateTime)
    → is_allowed_transition s.phase cancelled ≡ true
    → IsTracking Evolves s (settle_cancelled s error reason note was_cleared now)
unfolding settle_cancelled
settle_cancelled-IsTracking s error reason note was_cleared now edge =
    writing s (cancelled_at s error now) _
      (Evolves-step s (cancelled_at s error now) (allowed-open _ _ edge) (edge-⟶* edge)
        (ground arith))
      (quietly_on _ _ _ (publish-IsQuiet _ _ _) (λ _.
        quietly_on _ _ _ (audit-IsQuiet _ _ _ _ _)
          (λ _. quietly_on _ _ _ (audit_clear-IsQuiet was_cleared s _ note) (λ _. rest_here _))))

pub cancel_state-IsTracking :
    (v : Venue) (s : TrailingState) (clear_protection : Bool) (reason : Option Reason)
    → IsTracking Evolves s (cancel_state v s clear_protection reason)
unfolding cancel_state
cancel_state-IsTracking v s clear_protection reason =
    ensure-IsTracking Evolves s s.phase cancelled _ (Evolves-refl s) (λ edge.
      quietly_on s _ _ (replacement-IsQuiet v s clear_protection) (λ clearing.
        quietly_on s _ _ (clock-IsQuiet v)
          (λ now. settle_cancelled-IsTracking s _ _ _ clearing.1 now edge)))

pub close-IsTracking :
    (v : Venue) (s : TrailingState) (reason : Reason) (now : DateTime)
    → IsTracking Evolves s (complete_position_close v s reason now)
unfolding complete_position_close
close-IsTracking v s reason now = quietly_on s _ _ (clear_owned-IsQuiet v s) (λ clearing.
    if-IsTracking Evolves s (is_blocked clearing)
      (λ _. ensure-IsTracking Evolves s s.phase failed _ (Evolves-refl s) (λ edge.
        let after = failed_at s (notes (as_list clearing.0)) now in
        writing s after _
          (Evolves-step s after (allowed-open _ _ edge) (edge-⟶* edge) (ground arith))
          (quietly_on _ _ _ (publish-IsQuiet _ _ _)
            (λ _. quietly_on _ _ _ (audit-IsQuiet _ _ _ _ _) (λ _. rest_here _)))))
      (λ _. ensure-IsTracking Evolves s s.phase done _ (Evolves-refl s) (λ edge.
        let after = done_at s (note_text (as_list clearing.0)) now in
        writing s after _
          (Evolves-step s after (allowed-open _ _ edge) (edge-⟶* edge) (ground arith))
          (quietly_on _ _ _ (publish-IsQuiet _ _ _) (λ _.
            quietly_on _ _ _ (audit-IsQuiet _ _ _ _ _) (λ _.
              quietly_on _ _ _ (audit_clear-IsQuiet clearing.1 s after _) (λ _. rest_here _)))))))
