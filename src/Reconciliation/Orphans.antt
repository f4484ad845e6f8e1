-- ===== src/Reconciliation/Orphans.antt =====
-- What a reconciliation (`state/reconciliation.py`) reports.
use unified_trading_executio.Base.{◌≡◌, ◌≢◌, List, lookup}
use unified_trading_executio.Decimal.{Decimal}
use unified_trading_executio.Types.{Position}
use unified_trading_executio.Reconciliation.{
  leg_key, Mismatch, position_quantity, by_leg, quantity_of,
}

-- A mismatch that names a leg, with what both sides have of it, and the two quantities differ.
abbrev pub IsGenuine : (ours theirs : List Position) → Mismatch → Type 0
IsGenuine ours theirs (position_quantity leg a b) =
    (a ≡ lookup leg (by_leg ours))
    × (b ≡ lookup leg (by_leg theirs))
    × (quantity_of a ≢ quantity_of b)
IsGenuine ours theirs _ = ⊥
