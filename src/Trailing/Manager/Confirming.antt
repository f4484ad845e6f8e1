-- ===== src/Trailing/Manager/Confirming.antt =====
-- `trailing/manager.py`: whether the platform has the levels that were requested, in two readings.
use unified_trading_executio.Base.{
  ℕ, zero, suc, ◌&&◌, Option, none, some, Result, ok, err, attempt, if◌then◌else◌,
}
use unified_trading_executio.Decimal.{Decimal}
use unified_trading_executio.Types.{TpSlAttachment}
use unified_trading_executio.Trailing.Types.{
  TrailingState, Detail, raised, not_found, expected_stop, expected_levels,
}
use unified_trading_executio.Trailing.Legs.{attachment_matches, is_within}
use unified_trading_executio.Trailing.Manager.Desk.{
  Venue, Step, Protection, ◌>>=◌, give, read_protection,
}

-- The levels that the platform confirmed, or why it did not.
pub data Verdict (A : Type 0) : Type 0 where
  confirmed : A → Verdict A
  denied : Option Detail → Verdict A

abbrev pub price_of : Option TpSlAttachment → Option Decimal
price_of none = none
price_of (some a) = some a.trigger_price

abbrev judge_price : (expected tick_size : Decimal) → Option TpSlAttachment → Verdict Decimal
judge_price expected tick none = denied (some (expected_stop expected none))
judge_price expected tick (some a) =
    if is_within a.trigger_price expected tick
    then confirmed a.trigger_price
    else denied (some (expected_stop expected (some a.trigger_price)))

-- What one reading says of a stop.
abbrev pub judge_stop :
    (expected tick_size : Decimal) → Result (Option Protection) → Verdict Decimal
judge_stop expected tick (err e) = denied (some (raised e))
judge_stop expected tick (ok none) = denied (some not_found)
judge_stop expected tick (ok (some p)) = judge_price expected tick p.stop_loss

-- `x.trigger_price if requested is not None and x is not None else None`
abbrev if_requested : (requested : Option Decimal) → Option TpSlAttachment → Option Decimal
if_requested none a = none
if_requested (some _) a = price_of a

-- What one reading says of both levels.
abbrev pub judge_levels :
    (stop take_profit : Option Decimal)
    → (tick_size : Decimal) → Result (Option Protection)
    → Verdict (Option Decimal × Option Decimal)
judge_levels stop take_profit tick (err e) = denied (some (raised e))
judge_levels stop take_profit tick (ok none) = denied (some not_found)
judge_levels stop take_profit tick (ok (some p)) =
    if attachment_matches p.stop_loss stop tick && attachment_matches p.take_profit take_profit tick
    then confirmed (if_requested stop p.stop_loss, if_requested take_profit p.take_profit)
    else denied
        (some (expected_levels stop take_profit (price_of p.stop_loss) (price_of p.take_profit)))

module _ {A : Type 0} (v : Venue) (s : TrailingState)
    (judge : Result (Option Protection) → Verdict A) where
  -- Readings until one confirms, and the verdict of the last one otherwise.
  unfoldable pub confirm : (tries : ℕ) → Option Detail → Step (Verdict A)
  confirm zero last = give (denied last)
  confirm (suc n) last = do
    answer ← attempt (read_protection v s)
    elim (judge answer) [ confirmed a ↦ give (confirmed a) | denied d ↦ confirm n d ]

-- `_confirm_stop`
unfoldable pub confirm_stop :
    Venue → TrailingState → (expected tick_size : Decimal) → Step (Verdict Decimal)
confirm_stop v s expected tick = confirm v s (judge_stop expected tick) 2 none

-- `_confirm_levels`
unfoldable pub confirm_levels :
    Venue
    → TrailingState
    → (stop take_profit : Option Decimal) → (tick_size : Decimal)
    → Step (Verdict (Option Decimal × Option Decimal))
unfolding attachment_matches
confirm_levels v s stop take_profit tick = confirm v s (judge_levels stop take_profit tick) 2 none
