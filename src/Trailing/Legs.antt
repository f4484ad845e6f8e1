-- ===== src/Trailing/Legs.antt =====
-- `trailing/manager.py`: the leg that a trailing stop is for, the bases of its prices, whether a
-- recovered leg is the one that was left, and which fills a trailing stop caused.
use unified_trading_executio.Base.{
  ◌+◌, ◌-◌, Bool, true, false, not, ◌&&◌, ◌||◌, Option, none, some, is_some, List, [], ◌∷◌, select,
  is_empty, Result, ok, err, invalid_order, trailing_state, ltb, ℕ_key, ◌==◌, if◌then◌else◌,
}
use unified_trading_executio.Decimal.{
  Decimal, pos, eqb_ℤ, ltb_ℤ, leb_ℤ, abs_dec, ◌+ℤ◌, ◌-ℤ◌, div_whole,
}
use unified_trading_executio.Types.{
  Ident, DateTime, OrderSide, buy, sell, Ticker, TpSlAttachment, Position,
}
use unified_trading_executio.Trailing.Types.{
  IdentityNote, position_replaced, position_identity_unverified, TrailingMode, native,
  TrailingBasis, last, mark, mid, bid, ask, TrailingSpec, TrailingState,
}
use unified_trading_executio.Trailing.Routing.{
  PositionProtectionCapability, MarketDataCapability, no_basis,
}

abbrev pub is_open : Position → Bool
is_open p = not (eqb_ℤ p.quantity (pos 0))

abbrev pub has_id : (position_id : Ident) → Position → Bool
has_id i p = elim p.position_id [ none ↦ false | some j ↦ j == i ]

-- The one leg that has the id.
abbrev pub only_match : (position_id : Ident) → List Position → Result (Position × Ident)
only_match i [] = err invalid_order
only_match i (p ∷ []) = if is_open p then ok (p, i) else err invalid_order
only_match i (p ∷ q ∷ ps) = err trailing_state

-- The one leg that is open, once all open legs have ids.
abbrev pub only_open : List Position → Result (Position × Ident)
only_open [] = err invalid_order
only_open (p ∷ []) = elim p.position_id [ none ↦ err trailing_state | some i ↦ ok (p, i) ]
only_open (p ∷ q ∷ ps) = err trailing_state

-- `any(leg.position_id is None for leg in legs)`
abbrev pub any_unnamed : List Position → Bool
any_unnamed [] = false
any_unnamed (p ∷ ps) = not (is_some p.position_id) || any_unnamed ps

abbrev pub resolve_leg : List Position → Option Ident → Result (Position × Ident)
resolve_leg legs (some i) = only_match i (select (has_id i) legs)
resolve_leg legs none =
    let live = select is_open legs in
    if is_empty live
    then err invalid_order
    else if any_unnamed live
    then err trailing_state
    else only_open live

-- `resolve_position_leg`
unfoldable pub resolve_position_leg :
    (legs : List Position) → (position_id : Option Ident) → Result (Position × Ident)
resolve_position_leg legs i = resolve_leg legs i

-- `OrderSide.BUY if leg.quantity > 0 else OrderSide.SELL`
abbrev pub side_of : (quantity : Decimal) → OrderSide
side_of q = if ltb_ℤ (pos 0) q then buy else sell

-- The quote that a stop of the side is compared with, and the other one.
abbrev pub near_quote : OrderSide → TrailingBasis
near_quote buy = bid
near_quote sell = ask

abbrev pub far_quote : OrderSide → TrailingBasis
far_quote buy = ask
far_quote sell = bid

-- `next(item for item in preferred if item in pool)`. The preferred bases are all that there are.
abbrev pub first_in : (TrailingBasis → Bool) → List TrailingBasis → Option TrailingBasis
first_in pool [] = none
first_in pool (b ∷ bs) = if pool b then some b else first_in pool bs

abbrev pub preferred : OrderSide → List TrailingBasis
preferred side = last ∷ near_quote side ∷ far_quote side ∷ mark ∷ mid ∷ []

abbrev pub sampled :
    TrailingMode
    → (spec_basis : Option TrailingBasis) → (candidates trigger_bases : TrailingBasis → Bool)
    → OrderSide
    → Option TrailingBasis
sampled mode (some b) candidates triggers side = some b
sampled native none candidates triggers side = some last
sampled _ none candidates triggers side =
    let both = λ (b : TrailingBasis). candidates b && triggers b in
    first_in (if no_basis both then candidates else both) (preferred side)

-- `basis if basis is not None and basis in trigger_bases else None`
abbrev pub trigger_of : Option TrailingBasis → (TrailingBasis → Bool) → Option TrailingBasis
trigger_of none triggers = none
trigger_of (some b) triggers = if triggers b then some b else none

-- `_resolve_bases`
unfoldable pub resolve_bases :
    TrailingSpec
    → TrailingMode
    → PositionProtectionCapability
    → MarketDataCapability
    → OrderSide
    → Option TrailingBasis × Option TrailingBasis
unfolding no_basis
resolve_bases spec mode protection market side =
    let basis = sampled mode spec.basis market.ticker_bases protection.trigger_bases side in
    (basis, trigger_of basis protection.trigger_bases)

abbrev pub half_way : Option Decimal → Option Decimal → Option Decimal
half_way (some b) (some a) = some (div_whole (b +ℤ a) 2)
half_way none _ = none
half_way (some _) none = none

-- `_basis_price`
unfoldable pub basis_price : Ticker → TrailingBasis → Option Decimal
basis_price t last = t.last
basis_price t bid = t.bid
basis_price t ask = t.ask
basis_price t mark = t.mark
basis_price t mid = half_way t.bid t.ask

-- `abs(actual - expected) <= tick_size`
abbrev pub is_within : (actual expected tick_size : Decimal) → Bool
is_within actual expected tick = leb_ℤ (abs_dec (actual -ℤ expected)) tick

-- `_attachment_matches`
unfoldable pub attachment_matches :
    (actual : Option TpSlAttachment) → (requested : Option Decimal) → (tick_size : Decimal) → Bool
attachment_matches actual none tick = true
attachment_matches none (some v) tick = false
attachment_matches (some a) (some v) tick = is_within a.trigger_price v tick

-- `_stop_is_tighter`
unfoldable pub stop_is_tighter : OrderSide → (candidate reference : Decimal) → Bool
stop_is_tighter buy c r = ltb_ℤ r c
stop_is_tighter sell c r = ltb_ℤ c r

-- `_open_leg`
unfoldable pub open_leg : Option Position → Option Position
open_leg none = none
open_leg (some p) = if is_open p then some p else none

abbrev pub is_long : OrderSide → Bool
is_long buy = true
is_long sell = false

-- `current_side is state.side`
abbrev pub same_side : OrderSide → OrderSide → Bool
same_side a b = if is_long a then is_long b else not (is_long b)

-- The absolute difference of two instants is above a second.
abbrev pub far_apart : DateTime → DateTime → Bool
far_apart a b = ltb 1000000 ((a.instant - b.instant) + (b.instant - a.instant))

abbrev pub by_entry : Bool → Option IdentityNote × Bool
by_entry moved =
    if moved then (some position_replaced, false) else (some position_identity_unverified, false)

abbrev pub by_opening :
    Option DateTime → Option DateTime → (moved : Bool) → Option IdentityNote × Bool
by_opening (some a) (some b) moved =
    if far_apart a b then (some position_replaced, false) else (none, false)
by_opening none _ moved = by_entry moved
by_opening (some _) none moved = by_entry moved

-- `_recovery_identity`: the note, and whether the side flipped.
unfoldable pub recovery_identity :
    TrailingState → Position → (tick_size : Decimal) → Option IdentityNote × Bool
recovery_identity s leg tick =
    if not (same_side (side_of leg.quantity) s.side)
    then (some position_replaced, true)
    else by_opening s.position_opened_at leg.opened_at
        (ltb_ℤ tick (abs_dec (leg.average_entry_price -ℤ s.entry_price)))
