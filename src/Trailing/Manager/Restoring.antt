-- ===== src/Trailing/Manager/Restoring.antt =====
-- What the check of a synthetic state writes to the platform (`check_integrity` of
-- `trailing/manager.py`).
use unified_trading_executio.Base.{◌≡◌, ◌⊎◌, true, false, Option, none, some, List, ok, ℕ_key}
use unified_trading_executio.Decimal.{Decimal}
use unified_trading_executio.Types.{OrderSide, TpSlAttachment}
use unified_trading_executio.Trailing.{TrailingState, stop_is_tighter}
use unified_trading_executio.Trailing.Manager.{
  Venue, Call, modify_position_tpsl, get_position_tpsl, Protection, attachment, may_reduce,
}
use unified_trading_executio.Trailing.Manager.OwnClears.{ClearsOurs}

-- The platform has no stop, or one that is not tighter.
abbrev pub IsLooser : OrderSide → Option TpSlAttachment → (stop : Decimal) → Type 0
IsLooser side actual stop =
    (actual ≡ none)
    ⊎ ((a : TpSlAttachment) × (actual ≡ some a)
        × (stop_is_tighter side a.trigger_price stop ≡ false))

-- The call writes levels of the state that the platform was asked for and does not have.
pub record Restores (v : Venue) (s : TrailingState) (c : Call) : Type 0 where
  pub stop : Option Decimal
  pub profit : Option Decimal
  pub request :
      c
      ≡ modify_position_tpsl s.instrument s.position_id
          (attachment profit)
          (attachment stop)
          s.protection_trigger_basis
  pub calls : List Call
  pub actual : Protection
  pub answer : v.protection calls (get_position_tpsl s.instrument s.position_id) ≡ ok (some actual)
  pub stop_is :
      (x : Decimal) → stop ≡ some x → (s.current_stop ≡ some x) × IsLooser s.side actual.stop_loss x
  pub profit_is :
      (x : Decimal)
      → profit ≡ some x
      → (s.take_profit_owned ≡ true)
        × (s.current_take_profit ≡ some x)
        × (actual.take_profit ≡ none)
  pub not_halted : may_reduce v s.instrument ≡ true

-- A write of the check: levels are restored, or those of a closed position are taken back.
abbrev pub IsRepair : Venue → TrailingState → Call → Type 0
IsRepair v s c = Restores v s c ⊎ ((calls : List Call) × ClearsOurs v s calls c)
