-- ===== src/Reconciliation/Clean.antt =====
-- When a reconciliation (`state/reconciliation.py`) is clean.
use unified_trading_executio.Base.{
  ◌≡◌, ◌↔◌, refl, sym, ◌∙◌, Bool, true, not, ◌&&◌, &&_iff, Option, none, some, List, [], ◌∷◌,
  is_empty, select, Dict, lookup, contains, ℕ_key, arith,
}
use unified_trading_executio.Types.{Ident, Position, Balance, OrderRecord, FillRecord}
use unified_trading_executio.Reconciliation.{
  Leg, leg_key, position_quantity, balance, partial_fill, is_clean, differing, by_leg, quantity_of,
  total_of, filled_of, orphans, keys, position_mismatches_of, balance_mismatches_of,
  orphans_on_platform, orphans_in_local, fill_discrepancies_of, Snapshots, reconcile,
}
use unified_trading_executio.Reconciliation.Union.{
  differing_empty_iff, is_empty-map, missing_empty_iff,
}

-- With what was fetched a property holds; nothing is asked of a dataset that was not.
abbrev pub Fetched {ℓ} : {A : Type ℓ} → Option A → (A → Type 0) → Type 0
Fetched none P = Unit
Fetched (some a) P = P a

-- Every dataset that was fetched agrees with the local one: each leg has one quantity, each currency
-- one total, the same orders are there, and each order has one filled quantity.
pub record IsInAgreement (s : Snapshots) : Type 0 where
  pub positions : Fetched s.platform_positions λ theirs.
      (leg : Leg)
      → quantity_of (lookup leg (by_leg s.local_positions))
        ≡ quantity_of (lookup leg (by_leg theirs))
  pub balances :
      Fetched s.platform_balances
        λ theirs. (c : Ident) → total_of (lookup c s.local_balances) ≡ total_of (lookup c theirs)
  pub orders :
      Fetched s.platform_orders
        λ theirs. (cid : Ident) → contains cid s.local_orders ≡ contains cid theirs
  pub fills :
      Fetched s.platform_fills λ theirs.
        (cid : Ident) → filled_of (lookup cid s.local_fills) ≡ filled_of (lookup cid theirs)

positions_iff :
    (ours : List Position) (theirs : Option (List Position))
    → (is_empty (position_mismatches_of ours theirs) ≡ true)
      ↔ Fetched theirs λ ps.
        (leg : Leg) → quantity_of (lookup leg (by_leg ours)) ≡ quantity_of (lookup leg (by_leg ps))
unfolding position_mismatches_of
positions_iff ours none = ((λ h. tt), (λ h. refl))
positions_iff ours (some ps) =
    rw
      (is_empty-map
        (λ leg. position_quantity leg (lookup leg (by_leg ours)) (lookup leg (by_leg ps)))
        (differing quantity_of (by_leg ours) (by_leg ps)))
      (differing_empty_iff quantity_of (by_leg ours) (by_leg ps))

balances_iff :
    (ours : Dict Ident Balance) (theirs : Option (Dict Ident Balance))
    → (is_empty (balance_mismatches_of ours theirs) ≡ true)
      ↔ Fetched theirs λ bs. (c : Ident) → total_of (lookup c ours) ≡ total_of (lookup c bs)
unfolding balance_mismatches_of
balances_iff ours none = ((λ h. tt), (λ h. refl))
balances_iff ours (some bs) =
    rw (is_empty-map (λ c. balance (lookup c ours) (lookup c bs)) (differing total_of ours bs))
      (differing_empty_iff total_of ours bs)

fills_iff :
    (ours : Dict Ident (List FillRecord)) (theirs : Option (Dict Ident (List FillRecord)))
    → (is_empty (fill_discrepancies_of ours theirs) ≡ true)
      ↔ Fetched theirs λ fs. (cid : Ident) → filled_of (lookup cid ours) ≡ filled_of (lookup cid fs)
unfolding fill_discrepancies_of
fills_iff ours none = ((λ h. tt), (λ h. refl))
fills_iff ours (some fs) =
    rw
      (is_empty-map (λ cid. partial_fill (filled_of (lookup cid ours)) (filled_of (lookup cid fs)))
        (differing filled_of ours fs))
      (differing_empty_iff filled_of ours fs)

-- The orphans of `a` are there exactly when a key is missing.
is_empty-orphans :
    (a b : Dict Ident OrderRecord)
    → is_empty (orphans a b) ≡ is_empty (select (λ cid. not (contains cid b)) (keys a))
is_empty-orphans [] b = refl
is_empty-orphans ((cid, r) ∷ a) b = ground (arith, is_empty-orphans a b)

same_of : (p q : Bool) → (p ≡ true → q ≡ true) → (q ≡ true → p ≡ true) → p ≡ q
same_of p q f g = ground arith

orders_iff :
    (ours : Dict Ident OrderRecord) (theirs : Option (Dict Ident OrderRecord))
    → ((is_empty (orphans_on_platform ours theirs) && is_empty (orphans_in_local ours theirs))
        ≡ true)
      ↔ Fetched theirs λ os. (cid : Ident) → contains cid ours ≡ contains cid os
unfolding orphans_on_platform orphans_in_local
orders_iff ours none = ((λ h. tt), (λ h. refl))
orders_iff ours (some os) =
    let here = missing_empty_iff ours os in
    let there = missing_empty_iff os ours in
    let both =
      &&_iff (is_empty (orphans os ours))
        (is_empty (select (λ cid. not (contains cid os)) (keys ours))) in
    (
      (λ h cid.
          same_of (contains cid ours) (contains cid os) (here.0 (both.0 h).1 cid)
            (there.0 (sym (is_empty-orphans os ours) ∙ (both.0 h).0) cid)),
      (λ h. both.1 (
        is_empty-orphans os ours ∙ there.1 (λ cid c. h cid ∙ c),
        here.1 (λ cid c. sym (h cid) ∙ c),
      )),
    )

all_true :
    (p b i j f : Bool)
    → p ≡ true
    → b ≡ true
    → (i && j) ≡ true
    → f ≡ true
    → (p && (b && (i && (j && f)))) ≡ true
all_true p b i j f hp hb ho hf = ground arith

-- A reconciliation is clean exactly when every dataset that was fetched agrees with the local one.
pub reconcile_clean_iff : (s : Snapshots) → (is_clean (reconcile s) ≡ true) ↔ IsInAgreement s
unfolding is_clean reconcile
reconcile_clean_iff s =
    let p = positions_iff s.local_positions s.platform_positions in
    let b = balances_iff s.local_balances s.platform_balances in
    let o = orders_iff s.local_orders s.platform_orders in
    let f = fills_iff s.local_fills s.platform_fills in
    (
      (λ h. record {
        positions = p.0 (ground arith);
        balances = b.0 (ground arith);
        orders = o.0 (ground arith);
        fills = f.0 (ground arith);
      }),
      (λ h. all_true _ _ _ _ _ (p.1 h.positions) (b.1 h.balances) (o.1 h.orders) (f.1 h.fills)),
    )
