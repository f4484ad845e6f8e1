-- ===== src/Types/Holdings.antt =====
-- `types/position.py`: position legs and balances.
use unified_trading_executio.Base.{not, Option, Result, ok, value_error, raise_if, check_some, ◌>>◌}
use unified_trading_executio.Decimal.{pos, Decimal, whole, eqb_ℤ, ◌+ℤ◌, divide}
use unified_trading_executio.Base.{if◌then◌else◌}
use unified_trading_executio.Types.Instruments.{Instrument}
use unified_trading_executio.Types.Market.{DateTime}
use unified_trading_executio.Types.Order.{Ident, check_aware}

pub record Position : Type 0 where
  pub instrument : Instrument
  pub quantity : Decimal
  pub average_entry_price : Decimal
  pub updated_at : DateTime
  pub position_id : Option Ident
  pub opened_at : Option DateTime

-- `Position.__post_init__`
unfoldable pub check_position : Position → Result (Unit {0})
check_position p = check_aware p.updated_at >> check_some p.opened_at check_aware

pub record Balance : Type 0 where
  pub currency : Ident
  pub free : Decimal
  pub used : Decimal
  pub total : Decimal
  pub updated_at : DateTime

-- `Balance.__post_init__`
unfoldable pub check_balance : Balance → Result (Unit {0})
check_balance b = do
  raise_if (not (eqb_ℤ (b.free +ℤ b.used) b.total)) value_error
  check_aware b.updated_at

-- `Balance.available_ratio`
unfoldable pub available_ratio : Balance → Result Decimal
available_ratio b = if eqb_ℤ b.total (pos 0) then ok (whole 1) else divide b.free b.total
