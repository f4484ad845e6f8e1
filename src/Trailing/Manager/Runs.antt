-- ===== src/Trailing/Manager/Runs.antt =====
-- Sequences of calls of the trailing manager: whatever the tickers, ATRs, positions and platform are,
-- every row keeps to the lifecycle.
use unified_trading_executio.Base.{Bool, Option, List, [], ◌∷◌, ℕ_key}
use unified_trading_executio.Decimal.{Decimal}
use unified_trading_executio.Types.{Ident, DateTime, Ticker, Position, Instrument, instrument_key}
use unified_trading_executio.Trailing.{Reason}
use unified_trading_executio.Trailing.Manager.{
  check_integrity, Venue, TrailingManager, on_ticker, on_ticker_failure, on_atr, on_atr_failure,
  on_position_update, cancel,
}
use unified_trading_executio.Trailing.Manager.Leads.{Leads}

-- A call of the manager, by the worker, the engine or a user.
pub data Move : Type 0 where
  ticker : (trailing_id : Ident) → Ticker → Move
  ticker_failure : (trailing_id : Ident) → Reason → Move
  atr_refresh : (trailing_id : Ident) → (atr : Decimal) → (as_of : DateTime) → Move
  atr_failure : (trailing_id : Ident) → Reason → Move
  position_update : Position → Move
  integrity_check : (legs : Instrument → List Position) → (trailing_id : Ident) → Move
  cancellation : (trailing_id : Ident) → (clear_protection : Bool) → Option Reason → Move

abbrev pub after_move : Venue → Move → TrailingManager → TrailingManager
after_move v (ticker i t) m = (on_ticker v i t m).0
after_move v (ticker_failure i r) m = (on_ticker_failure v i r m).0
after_move v (atr_refresh i atr as_of) m = (on_atr v i atr as_of m).0
after_move v (atr_failure i r) m = (on_atr_failure v i r m).0
after_move v (position_update p) m = (on_position_update v p m).0
after_move v (integrity_check legs i) m = (check_integrity v legs i m).0
after_move v (cancellation i c r) m = (cancel v i c r m).0

abbrev pub after_moves : Venue → List Move → TrailingManager → TrailingManager
after_moves v [] m = m
after_moves v (x ∷ xs) m = after_moves v xs (after_move v x m)
