-- ===== src/Trailing/AtrBounds.antt =====
-- The average true range of `trailing/math.py`: when it is defined, and its bounds.
use unified_trading_executio.Base.{
  ℕ, zero, suc, ◌+◌, ◌-◌, ◌*◌, ◌≤◌, ◌<◌, ◌≡◌, sym, subst, ap, refl, false, List, [], ◌∷◌, length,
  take, drop, All, arith, ok, ltb,
}
use unified_trading_executio.Decimal.{
  pos, negsuc, Decimal, ◌≤ℤ◌, ◌+ℤ◌, ◌-ℤ◌, ◌*ℤ◌, +ℤ_parts, -ℤ_parts, div_whole, div_whole_mono,
  div_whole_exact, *ℤ_pos, scale_le,
}
use unified_trading_executio.Types.{Candle}
use unified_trading_executio.Trailing.Atr.{
  true_range, ranges, ranges_after, sum_from, smooth, smooth_all, wilder_atr,
}

-- The true range is at least the range of the candle, and at least the distance of both its
-- extremes from the previous close; it is one of the three.
pub true_range_bounds :
    (c : Candle) (previous : Decimal)
    → (c.high -ℤ c.low ≤ℤ true_range c previous)
      × (c.high -ℤ previous ≤ℤ true_range c previous)
      × (previous -ℤ c.low ≤ℤ true_range c previous)
      × (pos 0 ≤ℤ true_range c previous)
unfolding true_range
true_range_bounds c previous = ground (
  arith,
  -ℤ_parts c.high c.low,
  -ℤ_parts c.high previous,
  -ℤ_parts c.low previous,
  -ℤ_parts previous c.low,
)

-- Between `lo` and `hi`, numbers of at least zero.
abbrev pub Within : (lo hi : ℕ) → Decimal → Type 0
Within lo hi a = (pos lo ≤ℤ a) × (a ≤ℤ pos hi)

-- A quotient by `n` of a number between `n` times the bounds lies between the bounds.
quotient-Within :
    (lo hi n : ℕ) (a : Decimal) → 0 < n → Within (lo * n) (hi * n) a → Within lo hi (div_whole a n)
quotient-Within lo hi n a p h = (
  subst (λ x. x ≤ℤ div_whole a n) (div_whole_exact lo n p)
      (div_whole_mono n p (pos (lo * n)) a h.0),
  subst (λ x. div_whole a n ≤ℤ x) (div_whole_exact hi n p)
      (div_whole_mono n p a (pos (hi * n)) h.1),
)

weighted-Within :
    (lo hi n : ℕ) (a v : Decimal)
    → 0 < n
    → Within lo hi a
    → Within lo hi v
    → Within (lo * n) (hi * n) ((pos (n - 1) *ℤ a) +ℤ v)
weighted-Within lo hi (suc n) (pos a) v p h k =
    let e : pos (suc n - 1) *ℤ pos a ≡ pos (n * a) =
      subst (λ k. pos k *ℤ pos a ≡ pos (n * a)) (omega arith) (*ℤ_pos n a) in
    let lower = scale_le n lo a (omega arith) in
    let upper = scale_le n a hi (omega arith) in
    let sum = +ℤ_parts (pos (n * a)) v in
    subst (λ x. Within (lo * suc n) (hi * suc n) (x +ℤ v)) (sym e) ((omega arith, omega arith))
weighted-Within lo hi (suc n) (negsuc a) v p h k = absurd (omega arith)
weighted-Within lo hi zero a v p h k = absurd (omega arith)

smooth-Within :
    (lo hi n : ℕ) (a v : Decimal)
    → 0 < n
    → Within lo hi a
    → Within lo hi v
    → Within lo hi (smooth n a v)
unfolding smooth
smooth-Within lo hi n a v p h k =
    quotient-Within lo hi n ((pos (n - 1) *ℤ a) +ℤ v) p (weighted-Within lo hi n a v p h k)

smooth_all-Within :
    (lo hi n : ℕ) (a : Decimal) (vs : List Decimal)
    → 0 < n
    → Within lo hi a
    → All (Within lo hi) vs
    → Within lo hi (smooth_all n a vs)
unfolding smooth_all
smooth_all-Within lo hi n a [] p h k = h
smooth_all-Within lo hi n a (v ∷ vs) p h k =
    smooth_all-Within lo hi n (smooth n a v) vs p (smooth-Within lo hi n a v p h k.0) k.1

sum-Within :
    (lo hi k : ℕ) (start : Decimal) (vs : List Decimal)
    → Within (lo * k) (hi * k) start
    → All (Within lo hi) vs
    → Within (lo * (k + length vs)) (hi * (k + length vs)) (sum_from start vs)
unfolding sum_from
sum-Within lo hi k start [] h all = subst (λ n. Within (lo * n) (hi * n) start) (omega arith) h
sum-Within lo hi k start (v ∷ vs) h all =
    let sum = +ℤ_parts start v in
    let step : Within (lo * suc k) (hi * suc k) (start +ℤ v) = (omega arith, omega arith) in
    subst (λ n. Within (lo * n) (hi * n) (sum_from (start +ℤ v) vs)) (omega arith)
      (sum-Within lo hi (suc k) (start +ℤ v) vs step all.1)

length-ranges_after : (c : Candle) (cs : List Candle) → length (ranges_after c cs) ≡ length cs
unfolding ranges_after
length-ranges_after c [] = refl
length-ranges_after c (d ∷ ds) = ap suc (length-ranges_after d ds)

length-take : {A : Type 0} (n : ℕ) (xs : List A) → n ≤ length xs → length (take n xs) ≡ n
length-take zero xs h = refl
length-take (suc n) [] h = absurd (omega arith)
length-take (suc n) (x ∷ xs) h = ap suc (length-take n xs (omega arith))

take-All : {A : Type 0} (P : A → Type 0) (n : ℕ) (xs : List A) → All P xs → All P (take n xs)
take-All P zero xs h = tt
take-All P (suc n) [] h = tt
take-All P (suc n) (x ∷ xs) h = (h.0, take-All P n xs h.1)

drop-All : {A : Type 0} (P : A → Type 0) (n : ℕ) (xs : List A) → All P xs → All P (drop n xs)
drop-All P zero xs h = h
drop-All P (suc n) [] h = tt
drop-All P (suc n) (x ∷ xs) h = drop-All P n xs h.1

ranges-enough :
    (candles : List Candle) (period : ℕ)
    → period < length candles
    → period ≤ length (ranges candles)
unfolding ranges
ranges-enough [] period h = absurd (omega arith)
ranges-enough (c ∷ cs) period h = omega (arith, length-ranges_after c cs)

-- With a period of at least two and more candles than the period the average true range is defined,
-- and it lies between any bounds that hold for the true range of every candle but the first.
pub wilder_atr_bounds :
    (lo hi period : ℕ) (candles : List Candle)
    → 2 ≤ period
    → period < length candles
    → All (Within lo hi) (ranges candles)
    → (a : Decimal) × (wilder_atr candles period ≡ ok a) × Within lo hi a
unfolding wilder_atr
wilder_atr_bounds lo hi period candles two enough all =
    let long : ltb period 2 ≡ false = ground arith in
    let many : ltb (length candles) (period + 1) ≡ false = ground arith in
    let full : 0 + length (take period (ranges candles)) ≡ period =
      omega (arith, length-take period (ranges candles) (ranges-enough candles period enough)) in
    let sum : Within (lo * period) (hi * period) (sum_from (pos 0) (take period (ranges candles))) =
      subst (λ n. Within (lo * n) (hi * n) (sum_from (pos 0) (take period (ranges candles)))) full
        (sum-Within lo hi 0 (pos 0) (take period (ranges candles)) (omega arith, omega arith)
          (take-All (Within lo hi) period (ranges candles) all)) in
    let seed =
      quotient-Within lo hi period (sum_from (pos 0) (take period (ranges candles))) (omega arith)
        sum in
    rw (long, many)
      (
        smooth_all period (div_whole (sum_from (pos 0) (take period (ranges candles))) period)
            (drop period (ranges candles)),
        refl,
        smooth_all-Within lo hi period _ (drop period (ranges candles)) (omega arith) seed
            (drop-All (Within lo hi) period (ranges candles) all),
      )
