-- ===== src/Trailing/Manager/TickerWrites.antt =====
-- What `on_ticker` of `trailing/manager.py` writes to the platform.
use unified_trading_executio.Base.{
  ◌≡◌, refl, ◌⊎◌, inl, inr, true, Option, none, some, [], ◌∷◌, ◌++◌, Bool-cases, lookup, ℕ_key,
}
use unified_trading_executio.Decimal.{Decimal, pos, ltb_ℤ}
use unified_trading_executio.Types.{Ident, Ticker}
use unified_trading_executio.Trailing.{TrailingState, Reason}
use unified_trading_executio.Trailing.Manager.{
  Venue, Call, TrailingManager, Step, require_ready, get_trailing_state, is_degraded, is_watched,
  is_synthetic, record_fetch_failure, tick_state, price_on, when_watched, on_ticker,
}
use unified_trading_executio.Trailing.Manager.Justified.{IsJustified, sample-IsGuarded}
use unified_trading_executio.Trailing.Manager.Quiet.{give-Leaves, >>=-Leaves, if-Leaves}
use unified_trading_executio.Trailing.Manager.Writes.{
  writes, IsReading, IsGuarded, reading, reads_then, writes_then, clock-IsReading, store-IsReading,
  bump-IsReading, announce-IsReading,
}

fetch_failure-IsReading :
    (v : Venue) (s : TrailingState) (r : Reason) → IsReading (record_fetch_failure v s r)
unfolding record_fetch_failure
fetch_failure-IsReading v s r = >>=-Leaves _ _ (bump-IsReading s.trailing_id) (λ n.
    if-Leaves (ltb_ℤ (pos n) v.config.fetch_failure_threshold) _ _ (give-Leaves s) (
      if-Leaves (is_degraded s.phase) _ _ (give-Leaves s) (
        >>=-Leaves _ _ (clock-IsReading v) (λ now.
          >>=-Leaves _ _ (store-IsReading _)
            (λ _. >>=-Leaves _ _ (announce-IsReading s _ r) (λ _. give-Leaves _))))))

tick-IsGuarded :
    (v : Venue) (s : TrailingState) (price : Option Decimal)
    → IsGuarded (IsJustified v s) (tick_state v s price)
unfolding get_trailing_state
tick-IsGuarded v s none =
    reads_then _ _ (fetch_failure-IsReading v s _) (λ _. reading _ (record { same = λ m. refl }))
tick-IsGuarded v s (some basis) =
    writes_then _ _ (sample-IsGuarded v s basis) (λ t. give-Leaves (some t))

-- What the method did on the row `o`: no write, or one with its reason.
abbrev pub IsTicked : Venue → (o : Option TrailingState) → (before after : TrailingManager) → Type 0
IsTicked v o before after =
    (writes after ≡ writes before)
    ⊎ ((s : TrailingState) × (o ≡ some s)
        × (is_synthetic s.mode ≡ true)
        × (is_watched s.phase ≡ true)
        × (c : Call) × (writes after ≡ writes before ++ c ∷ [])
        × IsJustified v s c)

ticked :
    (v : Venue) (s : TrailingState) (step : Step (Option TrailingState)) (m : TrailingManager)
    → is_synthetic s.mode ≡ true
    → is_watched s.phase ≡ true
    → IsGuarded (IsJustified v s) step
    → IsTicked v (some s) m (step m).0
ticked v s step m made w h = elim (h.at m) [
  | inl kept ↦ inl kept
  | inr (c, one, j) ↦ inr (s, refl, made, w, c, one, j)
]

watched-IsTicked :
    (v : Venue) (m : TrailingManager) (t : Ticker) (o : Option TrailingState)
    → IsTicked v o m (when_watched (λ s. tick_state v s (price_on t s.resolved_basis)) o m).0
watched-IsTicked v m t none = inl refl
watched-IsTicked v m t (some s) = elim (Bool-cases (is_synthetic s.mode)) [
  | inl made ↦ elim (Bool-cases (is_watched s.phase)) [
    | inl w ↦ rw (made, w) (ticked v s _ m made w (tick-IsGuarded v s _))
    | inr idle ↦ rw (made, idle) (inl refl)
  ]
  | inr other ↦ rw other (inl refl)
]

-- A ticker writes nothing to the platform, or it writes once: a replacement of the stop, and of
-- the stop alone, on the leg of the row under the id, which is a synthetic trail in a watched
-- phase. The new stop is positive, the ratchet takes it over the row's stop, and the halts allow a
-- reducing order on the instrument.
pub on_ticker-IsTicked :
    (v : Venue) (i : Ident) (t : Ticker) (m : TrailingManager)
    → IsTicked v (lookup i m.states) m (on_ticker v i t m).0
unfolding on_ticker require_ready get_trailing_state
on_ticker-IsTicked v i t m = elim (Bool-cases v.is_connected) [
  | inl on ↦ simp on (watched-IsTicked v m t (lookup i m.states))
  | inr off ↦ rw off (inl refl)
]
