-- ===== src/Trailing/Candidate.antt =====
-- The candidate for the trailing stop of `trailing/math.py`: when there is one, on which side of the
-- best basis it lies, and that it follows the basis.
use unified_trading_executio.Base.{
  ℕ, ◌≡◌, refl, Bool, true, false, not, Option, none, some, ok, arith, ◌&&◌, >>=-eq-ok, raise_if,
  value_error,
}
use unified_trading_executio.Decimal.{
  leb_ℤ, pos, negsuc, Decimal, whole, mul, ◌≤ℤ◌, ◌<ℤ◌, int_laws, mul_nonneg, mul_mono_right,
  mul_mono_left, mul_one, div_whole_nonneg, percent_le_one,
}
use unified_trading_executio.Types.{OrderSide, buy, sell}
use unified_trading_executio.Trailing.{
  TrailingSpec, TrailingOffsetType, check_spec, candidate_stop, loss_factor, behind,
  is_percent_offset, is_open_percent, candidate_of,
}

-- `b` is at least as favourable to a position as `a`: higher for a long, lower for a short.
abbrev pub Improves : OrderSide → (a b : Decimal) → Type 0
Improves buy a b = a ≤ℤ b
Improves sell a b = b ≤ℤ a

-- An ATR offset has an ATR of at least zero.
abbrev pub IsSupplied : TrailingOffsetType → Option Decimal → Type 0
IsSupplied TrailingOffsetType.atr none = ⊥
IsSupplied TrailingOffsetType.atr (some v) = pos 0 ≤ℤ v
IsSupplied _ atr = Unit

abbrev IsProper : TrailingOffsetType → Decimal → Type 0
IsProper TrailingOffsetType.percent v = (pos 0 <ℤ v) × (v <ℤ whole 100)
IsProper _ v = pos 0 <ℤ v

passes : (b : Bool) → raise_if b value_error ≡ ok tt → b ≡ false
passes true h = cc
passes false h = refl

tests-IsProper :
    (t : TrailingOffsetType) (v : Decimal)
    → leb_ℤ v (pos 0) ≡ false
    → (is_percent_offset t && not (is_open_percent v)) ≡ false
    → IsProper t v
tests-IsProper TrailingOffsetType.price v h k = ground arith
tests-IsProper TrailingOffsetType.percent v h k = ground arith
tests-IsProper TrailingOffsetType.atr v h k = ground arith

check_spec-IsProper : (s : TrailingSpec) → check_spec s ≡ ok tt → IsProper s.offset_type s.offset
unfolding check_spec
check_spec-IsProper s h =
    let a = >>=-eq-ok (raise_if (leb_ℤ s.offset (pos 0)) value_error) _ h in
    let b =
      >>=-eq-ok
        (raise_if (is_percent_offset s.offset_type && not (is_open_percent s.offset)) value_error) _
        a.2 in
    tests-IsProper s.offset_type s.offset (passes _ a.1) (passes _ b.1)

whole-nonneg : (n : ℕ) → pos 0 ≤ℤ whole n
unfolding whole
whole-nonneg n = omega arith

-- What is left of a price is at least zero.
loss_factor_nonneg :
    (side : OrderSide) (p : Decimal) → pos 0 <ℤ p → p <ℤ whole 100 → pos 0 ≤ℤ loss_factor side p
unfolding loss_factor
loss_factor_nonneg buy p h k = omega (int_laws, percent_le_one p k)
loss_factor_nonneg sell p h k =
    omega (int_laws, whole-nonneg 1, div_whole_nonneg 100 p (omega arith))

loss_factor_one :
    (side : OrderSide) (p : Decimal) → pos 0 <ℤ p → Improves side (loss_factor side p) (whole 1)
unfolding loss_factor
loss_factor_one buy p h = omega (int_laws, div_whole_nonneg 100 p (omega arith))
loss_factor_one sell p h = omega (int_laws, div_whole_nonneg 100 p (omega arith))

mul-loss_factor :
    (side : OrderSide) (best p : Decimal)
    → pos 0 ≤ℤ best
    → pos 0 <ℤ p
    → Improves side (mul best (loss_factor side p)) best
mul-loss_factor buy (pos n) p h k =
    rw (mul_one n) at
      (mul_mono_right (pos n) (loss_factor buy p) (whole 1) h (loss_factor_one buy p k))
mul-loss_factor sell (pos n) p h k =
    rw (mul_one n) at
      (mul_mono_right (pos n) (whole 1) (loss_factor sell p) h (loss_factor_one sell p k))
mul-loss_factor side (negsuc n) p h k = absurd (omega arith)

behind-Improves :
    (side : OrderSide) (p d : Decimal) → pos 0 ≤ℤ d → Improves side (behind side p d) p
behind-Improves buy p d h = omega int_laws
behind-Improves sell p d h = omega int_laws

behind_mono :
    (side : OrderSide) (p q d : Decimal)
    → Improves side p q
    → Improves side (behind side p d) (behind side q d)
behind_mono buy p q d h = omega int_laws
behind_mono sell p q d h = omega int_laws

candidate_total :
    (t : TrailingOffsetType) (side : OrderSide) (best offset : Decimal) (atr : Option Decimal)
    → IsProper t offset
    → IsSupplied t atr
    → pos 0 ≤ℤ best
    → (c : Decimal) × (candidate_of t side best offset atr ≡ ok c) × Improves side c best
unfolding candidate_of
candidate_total TrailingOffsetType.price side best offset atr p s h =
    (behind side best offset, refl, behind-Improves side best offset (omega arith))
candidate_total TrailingOffsetType.percent side best offset atr p s h =
    (mul best (loss_factor side offset), refl, mul-loss_factor side best offset h p.0)
candidate_total TrailingOffsetType.atr side best offset (some v) p s h = (
  behind side best (mul offset v),
  refl,
  behind-Improves side best (mul offset v) (mul_nonneg offset v (omega arith) s),
)
candidate_total TrailingOffsetType.atr side best offset none p s h = absurd s

-- For a specification that passes its checks, an ATR where one is needed and a basis of at least
-- zero there is a candidate, and it is not on the favourable side of the basis: not above it for
-- a long, not below it for a short.
pub candidate_stop_total :
    (side : OrderSide) (best : Decimal) (spec : TrailingSpec) (atr : Option Decimal)
    → check_spec spec ≡ ok tt
    → IsSupplied spec.offset_type atr
    → pos 0 ≤ℤ best
    → (c : Decimal) × (candidate_stop side best spec atr ≡ ok c) × Improves side c best
unfolding candidate_stop
candidate_stop_total side best spec atr valid supplied h =
    candidate_total spec.offset_type side best spec.offset atr (check_spec-IsProper spec valid)
      supplied h

mul_mono_side :
    (side : OrderSide) (p q f : Decimal)
    → pos 0 ≤ℤ f
    → Improves side p q
    → Improves side (mul p f) (mul q f)
mul_mono_side buy p q f h k = mul_mono_left p q f h k
mul_mono_side sell p q f h k = mul_mono_left q p f h k

candidate_mono :
    (t : TrailingOffsetType) (side : OrderSide) (best better offset : Decimal)
    (atr : Option Decimal) {c d : Decimal}
    → IsProper t offset
    → Improves side best better
    → candidate_of t side best offset atr ≡ ok c
    → candidate_of t side better offset atr ≡ ok d
    → Improves side c d
unfolding candidate_of
candidate_mono TrailingOffsetType.price side best better offset atr {c} {d} p h e f =
    let ce : behind side best offset ≡ c = cc in
    let de : behind side better offset ≡ d = cc in
    rw (← ce, ← de) (behind_mono side best better offset h)
candidate_mono TrailingOffsetType.percent side best better offset atr {c} {d} p h e f =
    let ce : mul best (loss_factor side offset) ≡ c = cc in
    let de : mul better (loss_factor side offset) ≡ d = cc in
    rw (← ce, ← de)
      (mul_mono_side side best better (loss_factor side offset)
        (loss_factor_nonneg side offset p.0 p.1) h)
candidate_mono TrailingOffsetType.atr side best better offset none p h e f = cc
candidate_mono TrailingOffsetType.atr side best better offset (some v) {c} {d} p h e f =
    let ce : behind side best (mul offset v) ≡ c = cc in
    let de : behind side better (mul offset v) ≡ d = cc in
    rw (← ce, ← de) (behind_mono side best better (mul offset v) h)

-- The candidate follows the basis: for a specification that passes its checks and one ATR, a more
-- favourable best basis gives a candidate that is at least as favourable.
pub candidate_stop_mono :
    (side : OrderSide) (best better : Decimal) (spec : TrailingSpec) (atr : Option Decimal)
    {c d : Decimal}
    → check_spec spec ≡ ok tt
    → Improves side best better
    → candidate_stop side best spec atr ≡ ok c
    → candidate_stop side better spec atr ≡ ok d
    → Improves side c d
unfolding candidate_stop
candidate_stop_mono side best better spec atr valid h e f =
    candidate_mono spec.offset_type side best better spec.offset atr
      (check_spec-IsProper spec valid) h e f
