-- ===== src/Trailing/Blockers.antt =====
-- When nothing keeps a specification from an execution mode (`_native_blockers` and
-- `_synthetic_blockers` of `trailing/manager.py`).
use unified_trading_executio.Base.{
  ◌≡◌, refl, sym, ap, ◌∙◌, inl, inr, ◌↔◌, Bool, true, false, not, ◌&&◌, ◌||◌, Option, none, some,
  is_some, List, [], ◌∷◌, ◌++◌, Bool-cases, arith, if◌then◌else◌,
}
use unified_trading_executio.Trailing.{
  TrailingBasis, TrailingSpec, CandleTimeframe, uses_atr, is_atr, is_atr_offset,
  PositionProtectionCapability, TrailingCapability, MarketDataCapability, Blocker,
  native_unsupported, block, is_outside, is_missing, native_activation, native_blockers, no_basis,
  synthetic_blockers,
}

-- The candles of the specification's ATR are available.
pub record HasAtrData (spec : TrailingSpec) (market : MarketDataCapability) : Type 0 where
  pub timeframe : CandleTimeframe
  pub asked : spec.atr_timeframe ≡ some timeframe
  pub offered : market.candle_timeframes timeframe ≡ true

-- The platform can trail by the specification itself.
pub record IsNative (spec : TrailingSpec) (n : TrailingCapability)
    (protection : PositionProtectionCapability) (market : MarketDataCapability) : Type 0 where
  pub supported : n.supported ≡ true
  pub offset : (is_atr_offset spec.offset_type ≡ false) × (n.offset_types spec.offset_type ≡ true)
  pub basis : (b : TrailingBasis) → spec.basis ≡ some b → n.bases b ≡ true
  pub activation : n.activations (native_activation spec.activation) ≡ true
  pub step : is_some spec.step ≡ true → n.supports_step ≡ true
  pub initial_stop :
      is_some spec.initial_stop ≡ true
      → (n.supports_initial_stop ≡ true) × (is_atr spec.initial_stop ≡ false)
  pub take_profit : is_some spec.take_profit ≡ true → protection.can_set_take_profit ≡ true
  pub atr_data : is_atr spec.take_profit ≡ true → HasAtrData spec market

-- The stops of a position can be moved by the specification.
pub record IsSynthetic (spec : TrailingSpec) (protection : PositionProtectionCapability)
    (market : MarketDataCapability) : Type 0 where
  pub supported : protection.supported ≡ true
  pub can_set_stop : protection.can_set_stop ≡ true
  pub merges : protection.preserves_unmentioned_side ≡ true
  pub has_prices : no_basis market.ticker_bases ≡ false
  pub take_profit : is_some spec.take_profit ≡ true → protection.can_set_take_profit ≡ true
  pub atr_data : uses_atr spec ≡ true → HasAtrData spec market

++_nil_iff {ℓ} : {A : Type ℓ} (xs ys : List A) → (xs ++ ys ≡ []) ↔ ((xs ≡ []) × (ys ≡ []))
++_nil_iff [] ys = (λ h. (refl, h), λ h. h.1)
++_nil_iff (x ∷ xs) ys = (λ h. absurd (cc h), λ h. absurd (cc (h.0)))

-- No code is added, and none by what follows.
block_iff :
    (b : Bool) (c : Blocker) (rest : List Blocker)
    → (block b c ++ rest ≡ []) ↔ ((b ≡ false) × (rest ≡ []))
block_iff true c rest = (λ h. absurd (cc h), λ h. absurd (cc (h.0)))
block_iff false c rest = (λ h. (refl, h), λ h. h.1)

last_iff : (b : Bool) (c : Blocker) → (block b c ≡ []) ↔ (b ≡ false)
last_iff true c = (λ h. absurd (cc h), λ h. absurd (cc h))
last_iff false c = (λ h. refl, λ h. refl)

offset_iff :
    (atr offered : Bool) (c d : Blocker) (rest : List Blocker)
    → ((if atr then c ∷ [] else block (not offered) d) ++ rest ≡ [])
      ↔ (((atr ≡ false) × (offered ≡ true)) × (rest ≡ []))
offset_iff true offered c d rest = (λ h. absurd (cc h), λ h. absurd (cc (h.0.0)))
offset_iff false true c d rest = (λ h. ((refl, refl), h), λ h. h.1)
offset_iff false false c d rest = (λ h. absurd (cc h), λ h. absurd (cc (h.0.1)))

not_iff : (a : Bool) → (not a ≡ false) ↔ (a ≡ true)
not_iff a = ground arith

needs_iff : (a b : Bool) → ((a && not b) ≡ false) ↔ (a ≡ true → b ≡ true)
needs_iff true b = (λ h _. ground (arith, h), λ h. ground (arith, h refl))
needs_iff false b = (λ h e. absurd (cc e), λ h. refl)

needs_both_iff :
    (a b c : Bool) → ((a && (not b || c)) ≡ false) ↔ (a ≡ true → (b ≡ true) × (c ≡ false))
needs_both_iff true b c = (λ h _. ground (arith, h), λ h. ground (arith, h refl))
needs_both_iff false b c = (λ h e. absurd (cc e), λ h. refl)

pub is_outside_iff {ℓ} :
    {A : Type ℓ} (o : Option A) (s : A → Bool)
    → (is_outside o s ≡ false) ↔ ((a : A) → o ≡ some a → s a ≡ true)
is_outside_iff none s = (λ h a is_a. absurd (cc is_a), λ h. refl)
is_outside_iff (some a) s = (
  λ h b is_b. let same : a ≡ b = cc is_b in ap s (sym same) ∙ ground (arith, h),
  λ h. ap not (h a refl),
)

is_missing_iff {ℓ} :
    {A : Type ℓ} (o : Option A) (s : A → Bool)
    → (is_missing o s ≡ false) ↔ ((a : A) × (o ≡ some a) × (s a ≡ true))
is_missing_iff none s = (λ h. absurd (cc h), λ h. absurd (cc (h.1)))
is_missing_iff (some a) s = (
  λ h. (a, refl, (not_iff (s a)).0 h),
  λ h. let same : a ≡ h.0 = cc (h.1) in (not_iff (s a)).1 (ap s same ∙ h.2),
)

atr_data_iff :
    (b : Bool) (spec : TrailingSpec) (market : MarketDataCapability)
    → ((b && is_missing spec.atr_timeframe market.candle_timeframes) ≡ false)
      ↔ (b ≡ true → HasAtrData spec market)
atr_data_iff false spec market = (λ h e. absurd (cc e), λ h. refl)
atr_data_iff true spec market = (
  λ h _.
      let (t, asked, offered) = (is_missing_iff _ _).0 h in
      record { timeframe = t; asked = asked; offered = offered },
  λ h. let d = h refl in (is_missing_iff _ _).1 (d.timeframe, d.asked, d.offered),
)

pub native_blockers_iff :
    (spec : TrailingSpec) (n : TrailingCapability) (protection : PositionProtectionCapability)
    (market : MarketDataCapability)
    → (native_blockers spec n protection market ≡ []) ↔ IsNative spec n protection market
unfolding native_blockers
native_blockers_iff spec n protection market = elim (Bool-cases n.supported) [
  | inr off ↦ (
    λ h. let wrong : native_unsupported ∷ [] ≡ [] = simp off at h in absurd (cc wrong),
    λ h. absurd (cc (off, h.supported)),
  )
  | inl on ↦ (
    λ h.
        let (offset, h1) = (offset_iff _ _ _ _ _).0 (simp on at h) in
        let (basis, h2) = (block_iff _ _ _).0 h1 in
        let (activation, h3) = (block_iff _ _ _).0 h2 in
        let (step, h4) = (block_iff _ _ _).0 h3 in
        let (initial, h5) = (block_iff _ _ _).0 h4 in
        let (profit, h6) = (block_iff _ _ _).0 h5 in
        record {
          supported = on;
          offset = offset;
          basis = (is_outside_iff _ _).0 basis;
          activation = (not_iff _).0 activation;
          step = (needs_iff _ _).0 step;
          initial_stop = (needs_both_iff _ _ _).0 initial;
          take_profit = (needs_iff _ _).0 profit;
          atr_data = (atr_data_iff _ spec market).0 ((last_iff _ _).0 h6);
        },
    λ h. simp on (
        (offset_iff _ _ _ _ _).1 (
          h.offset,
          (block_iff _ _ _).1 (
            (is_outside_iff _ _).1 h.basis,
            (block_iff _ _ _).1 (
              (not_iff _).1 h.activation,
              (block_iff _ _ _).1 (
                (needs_iff _ _).1 h.step,
                (block_iff _ _ _).1 (
                  (needs_both_iff _ _ _).1 h.initial_stop,
                  (block_iff _ _ _).1 (
                    (needs_iff _ _).1 h.take_profit,
                    (last_iff _ _).1 ((atr_data_iff _ spec market).1 h.atr_data),
                  ),
                ),
              ),
            ),
          ),
        )),
  )
]

protection_iff :
    (supported can_set merges : Bool) (c d e : Blocker) (rest : List Blocker)
    → ((if not supported then c ∷ [] else if not can_set then d ∷ [] else block (not merges) e)
          ++ rest
        ≡ [])
      ↔ ((supported ≡ true) × (can_set ≡ true) × (merges ≡ true) × (rest ≡ []))
protection_iff false can_set merges c d e rest = (λ h. absurd (cc h), λ h. absurd (cc (h.0)))
protection_iff true false merges c d e rest = (λ h. absurd (cc h), λ h. absurd (cc (h.1)))
protection_iff true true false c d e rest = (λ h. absurd (cc h), λ h. absurd (cc (h.2)))
protection_iff true true true c d e rest = (λ h. (refl, refl, refl, h), λ h. h.3)

pub synthetic_blockers_iff :
    (spec : TrailingSpec) (protection : PositionProtectionCapability)
    (market : MarketDataCapability)
    → (synthetic_blockers spec protection market ≡ []) ↔ IsSynthetic spec protection market
unfolding synthetic_blockers
synthetic_blockers_iff spec protection market = (
  λ h.
      let (supported, can_set, merges, h1) = (protection_iff _ _ _ _ _ _ _).0 h in
      let (prices, h2) = (block_iff _ _ _).0 h1 in
      let (profit, h3) = (block_iff _ _ _).0 h2 in
      record {
        supported = supported;
        can_set_stop = can_set;
        merges = merges;
        has_prices = prices;
        take_profit = (needs_iff _ _).0 profit;
        atr_data = (atr_data_iff _ spec market).0 ((last_iff _ _).0 h3);
      },
  λ h. (protection_iff _ _ _ _ _ _ _).1 (
    h.supported,
    h.can_set_stop,
    h.merges,
    (block_iff _ _ _).1 (
      h.has_prices,
      (block_iff _ _ _).1 (
        (needs_iff _ _).1 h.take_profit,
        (last_iff _ _).1 ((atr_data_iff _ spec market).1 h.atr_data),
      ),
    ),
  ),
)
