-- ===== src/Examples/OfReconciliation.antt =====
-- A mirror and a platform that disagree on a position and on an order.
use unified_trading_executio.Base.{◌≡◌, ◌↔◌, true, some, none, [], ◌∷◌, ℕ_key}
use unified_trading_executio.Decimal.{Decimal}
use unified_trading_executio.Types.{Position, TimeInForce}
use unified_trading_executio.Reconciliation.{Snapshots, reconcile, is_clean}
use unified_trading_executio.Reconciliation.Clean.{IsInAgreement, reconcile_clean_iff}
use unified_trading_executio.Examples.Samples.{dec, pair, row}

abbrev leg_of : (quantity : Decimal) → Position
leg_of quantity = record {
  instrument = pair;
  quantity = quantity;
  average_entry_price = dec 100;
  updated_at = record { instant = 5; aware = true };
  position_id = none;
  opened_at = none;
}

-- The platform's balances were not fetched.
abbrev snapshots : Snapshots
snapshots = record {
  local_positions = leg_of (dec 5) ∷ [];
  platform_positions = some (leg_of (dec 4) ∷ []);
  local_balances = [];
  platform_balances = none;
  local_orders = (7, row TimeInForce.gtc) ∷ [];
  platform_orders = some [];
  local_fills = [];
  platform_fills = some [];
}

reconcile_clean_iff_example : (is_clean (reconcile snapshots) ≡ true) ↔ IsInAgreement snapshots
reconcile_clean_iff_example = reconcile_clean_iff snapshots
