-- ===== src/Reconciliation.antt =====
-- `state/reconciliation.py`: the mismatches between the local mirror and the platform. A set of keys
-- is listed without repetition, the local keys first; the source iterates it in no fixed order.
pub mod Union
pub mod Clean
pub mod Orphans
use native.Mathlib.Decide.{ℕ_discrete}
use unified_trading_executio.Base.{
  ℕ, Bool, true, false, not, ◌&&◌, if◌then◌else◌, Option, none, some, is_some, List, [], ◌∷◌, ◌++◌,
  map, select, is_empty, Dict, lookup, contains, insert, Key, ℕ_key, key_of_discrete,
}
use unified_trading_executio.Decimal.{Decimal, pos, eqb_ℤ, ◌+ℤ◌}
use unified_trading_executio.Types.{
  Ident, InstrumentId, InstrumentId-discrete, Instrument, Position, Balance, OrderRecord,
  FillRecord,
}

-- The key of a position leg.
pub record Leg : Type 0 where
  pub instrument : InstrumentId
  pub position_id : Option Ident

unfoldable pub Leg-discrete : Discrete Leg
unfolding ℕ_discrete
Leg-discrete = hlevel (InstrumentId-discrete, ℕ_discrete)

instance abbrev pub leg_key : Key Leg
leg_key = key_of_discrete Leg-discrete

-- `ReconciliationMismatch` by its type, with the values that its texts render; an absent side is
-- `none`.
pub data Mismatch : Type 0 where
  position_quantity : Leg → (local_value platform_value : Option Position) → Mismatch
  balance : (local_value platform_value : Option Balance) → Mismatch
  partial_fill : (local_value platform_value : Decimal) → Mismatch
  orphan_on_platform : OrderRecord → Mismatch
  orphan_in_local : (client_order_id : Ident) → Mismatch

pub record ReconciliationResult : Type 0 where
  pub position_mismatches : List Mismatch
  pub balance_mismatches : List Mismatch
  pub orphan_orders_on_platform : List OrderRecord
  pub orphan_orders_in_local : List Ident
  pub partial_fill_discrepancies : List Mismatch

unfoldable pub is_clean : ReconciliationResult → Bool
is_clean r =
    is_empty r.position_mismatches
    && (is_empty r.balance_mismatches
        && (is_empty r.orphan_orders_on_platform
            && (is_empty r.orphan_orders_in_local && is_empty r.partial_fill_discrepancies)))

unfoldable pub all_mismatches : ReconciliationResult → List Mismatch
all_mismatches r =
    r.position_mismatches
    ++ r.balance_mismatches
    ++ map orphan_on_platform r.orphan_orders_on_platform
    ++ map orphan_in_local r.orphan_orders_in_local
    ++ r.partial_fill_discrepancies

module _ {ℓ κ} {K : Type ℓ} {V : Type κ} ⦃e : Key K⦄ where
  abbrev pub keys : Dict K V → List K
  keys [] = []
  keys ((k, _) ∷ d) = k ∷ keys d

  -- `set(a) | set(b)`
  abbrev pub union_keys : (a b : Dict K V) → List K
  union_keys a b = keys a ++ select (λ k. not (contains k a)) (keys b)

  -- The keys under which the two sides have different amounts.
  abbrev pub differing : (amount : Option V → Decimal) → (a b : Dict K V) → List K
  differing amount a b =
      select (λ k. not (eqb_ℤ (amount (lookup k a)) (amount (lookup k b)))) (union_keys a b)

-- `{(p.instrument, p.position_id): p for p in positions}`
by_leg_onto : Dict Leg Position → List Position → Dict Leg Position
by_leg_onto d [] = d
by_leg_onto d (p ∷ ps) =
    by_leg_onto
      (insert (record { instrument = p.instrument.identity; position_id = p.position_id }) p d) ps

unfoldable pub by_leg : List Position → Dict Leg Position
unfolding by_leg_onto
by_leg ps = by_leg_onto [] ps

-- An absent leg has the quantity zero, and an absent balance the total zero.
abbrev pub quantity_of : Option Position → Decimal
quantity_of none = pos 0
quantity_of (some p) = p.quantity

abbrev pub total_of : Option Balance → Decimal
total_of none = pos 0
total_of (some b) = b.total

sum_fills : Decimal → List FillRecord → Decimal
sum_fills start [] = start
sum_fills start (f ∷ fs) = sum_fills (start +ℤ f.fill_quantity) fs

-- `sum((f.fill_quantity for f in fills.get(cid, [])), start=Decimal("0"))`
unfoldable pub filled_of : Option (List FillRecord) → Decimal
unfolding sum_fills
filled_of none = pos 0
filled_of (some fs) = sum_fills (pos 0) fs

-- The records of `a` whose key `b` does not have.
abbrev pub orphans : (a b : Dict Ident OrderRecord) → List OrderRecord
orphans [] b = []
orphans ((cid, r) ∷ a) b = if contains cid b then orphans a b else r ∷ orphans a b

unfoldable pub position_mismatches_of : List Position → Option (List Position) → List Mismatch
position_mismatches_of ours none = []
position_mismatches_of ours (some theirs) =
    map (λ leg. position_quantity leg (lookup leg (by_leg ours)) (lookup leg (by_leg theirs)))
      (differing quantity_of (by_leg ours) (by_leg theirs))

unfoldable pub balance_mismatches_of :
    Dict Ident Balance → Option (Dict Ident Balance) → List Mismatch
balance_mismatches_of ours none = []
balance_mismatches_of ours (some theirs) =
    map (λ c. balance (lookup c ours) (lookup c theirs)) (differing total_of ours theirs)

unfoldable pub orphans_on_platform :
    Dict Ident OrderRecord → Option (Dict Ident OrderRecord) → List OrderRecord
orphans_on_platform ours none = []
orphans_on_platform ours (some theirs) = orphans theirs ours

unfoldable pub orphans_in_local :
    Dict Ident OrderRecord → Option (Dict Ident OrderRecord) → List Ident
orphans_in_local ours none = []
orphans_in_local ours (some theirs) = select (λ cid. not (contains cid theirs)) (keys ours)

unfoldable pub fill_discrepancies_of :
    Dict Ident (List FillRecord) → Option (Dict Ident (List FillRecord)) → List Mismatch
fill_discrepancies_of ours none = []
fill_discrepancies_of ours (some theirs) =
    map (λ cid. partial_fill (filled_of (lookup cid ours)) (filled_of (lookup cid theirs)))
      (differing filled_of ours theirs)

-- The local snapshot, and what was fetched; `none` is a dataset that the adapter does not support.
pub record Snapshots : Type 0 where
  pub local_positions : List Position
  pub platform_positions : Option (List Position)
  pub local_balances : Dict Ident Balance
  pub platform_balances : Option (Dict Ident Balance)
  pub local_orders : Dict Ident OrderRecord
  pub platform_orders : Option (Dict Ident OrderRecord)
  pub local_fills : Dict Ident (List FillRecord)
  pub platform_fills : Option (Dict Ident (List FillRecord))

unfoldable pub reconcile : Snapshots → ReconciliationResult
reconcile s = record {
  position_mismatches = position_mismatches_of s.local_positions s.platform_positions;
  balance_mismatches = balance_mismatches_of s.local_balances s.platform_balances;
  orphan_orders_on_platform = orphans_on_platform s.local_orders s.platform_orders;
  orphan_orders_in_local = orphans_in_local s.local_orders s.platform_orders;
  partial_fill_discrepancies = fill_discrepancies_of s.local_fills s.platform_fills;
}
