-- ===== src/Types/Validity.antt =====
-- What the checks of the data types accept: `__post_init__` of orders, instruments, candles and
-- balances.
use unified_trading_executio.Base.{
  ℕ, ◌<◌, ◌≡◌, refl, ap, ◌↔◌, >>=-eq-ok, is_empty, [], ◌∷◌, ◌++◌, Bool, true, false, ◌||◌, Option,
  none, some, arith, ok,
}
use unified_trading_executio.Decimal.{pos, Decimal, ◌≤ℤ◌, ◌<ℤ◌}
use unified_trading_executio.Types.Strings.{
  Text, is_blank, upper-upper, upper_optional-upper_optional,
}
use unified_trading_executio.Types.Instruments.{
  Instrument, InstrumentId, normalize, check_identity, make_instrument, shorthand, is_pair,
  is_perpetual,
}
use unified_trading_executio.Types.Market.{DateTime, Candle, check_candle}
use unified_trading_executio.Types.Order.{
  UnifiedOrder, check_order, needs_price, needs_stop_price, is_gtd,
}

-- A field that is present and above zero where it is needed, and above zero where it is present.
abbrev pub IsPositive : (needed : Bool) → Option Decimal → Type 0
IsPositive needed (some v) = pos 0 <ℤ v
IsPositive true none = ⊥
IsPositive false none = Unit

-- An expiry that is present, has a time zone and lies after `now`, where it is needed.
abbrev pub IsFuture : (needed : Bool) → ℕ → Option DateTime → Type 0
IsFuture false now t = Unit
IsFuture true now none = ⊥
IsFuture true now (some t) = (t.aware ≡ true) × (now < t.instant)

pub record IsValidOrder (now : ℕ) (o : UnifiedOrder) : Type 0 where
  pub priced : IsPositive (needs_price o.order_type) o.price
  pub stop_priced : IsPositive (needs_stop_price o.order_type) o.stop_price
  pub sized : pos 0 <ℤ o.quantity
  pub lasting : IsFuture (is_gtd o.time_in_force) now o.expire_at

-- An order passes its checks exactly when its prices are present where its type needs them, its
-- quantity and every price present are above zero, and a GTD order expires, with a time zone,
-- after now.
pub check_order_iff :
    (now : ℕ) (o : UnifiedOrder) → (check_order now o ≡ ok tt) ↔ IsValidOrder now o
unfolding check_order
check_order_iff now o = (λ h. ground arith, λ h. ground arith)

normalize-normalize : (i : Instrument) → normalize (normalize i) ≡ normalize i
unfolding normalize
normalize-normalize i = cc (
  upper-upper i.symbol,
  upper_optional-upper_optional i.quote_currency,
  upper_optional-upper_optional i.currency,
)

make_instrument_inv :
    (i : Instrument) {j : Instrument}
    → make_instrument i ≡ ok j
    → (normalize i ≡ j) × (check_identity (normalize i).identity ≡ ok tt)
unfolding make_instrument
make_instrument_inv i h =
    let (_, passed, same) =
      >>=-eq-ok (check_identity (normalize i).identity) (λ _. ok (normalize i)) h in
    (cc, passed)

make_instrument_accepts :
    (i : Instrument)
    → normalize i ≡ i
    → check_identity i.identity ≡ ok tt
    → make_instrument i ≡ ok i
unfolding make_instrument
make_instrument_accepts i e h = rw (e, h) refl

-- Construction of an instrument is idempotent: an instrument that was constructed is accepted
-- again, unchanged, and it has the platform's own spelling that was given.
pub make_instrument_idempotent :
    (i : Instrument) {j : Instrument}
    → make_instrument i ≡ ok j
    → (make_instrument j ≡ ok j) × (j.platform_symbol ≡ i.platform_symbol)
make_instrument_idempotent i {j} h =
    let (same, passed) = make_instrument_inv i h in
    (
      make_instrument_accepts j (cc (normalize-normalize i)) (rw same at passed),
      unfold normalize in cc (ap (λ (k : Instrument). k.platform_symbol) same),
    )

check_identity_quote :
    (key : InstrumentId)
    → check_identity key ≡ ok tt
    → (is_pair key.asset_class || is_perpetual key) ≡ true
    → (q : Text) × (key.quote_currency ≡ some q) × (is_blank q ≡ false)
unfolding check_identity
check_identity_quote key h p = ground arith

not_blank_not_empty : (q : Text) → is_blank q ≡ false → is_empty q ≡ false
unfolding is_blank
not_blank_not_empty [] h = cc
not_blank_not_empty (c ∷ q) h = refl

shorthand_lem :
    (j : Instrument) (q : Text)
    → j.quote_currency ≡ some q
    → is_empty q ≡ false
    → (is_pair j.asset_class || is_perpetual j.identity) ≡ true
    → shorthand j ≡ ok (j.symbol ++ 47 ∷ q)
unfolding shorthand
shorthand_lem j q e h p = ground arith

-- Every pair and every perpetual that was constructed has a shorthand: its symbol, a slash and
-- its quote currency, which is there and not blank.
pub make_instrument-shorthand :
    (i : Instrument) {j : Instrument}
    → make_instrument i ≡ ok j
    → (is_pair j.asset_class || is_perpetual j.identity) ≡ true
    → (q : Text) × (j.quote_currency ≡ some q)
      × (is_blank q ≡ false)
      × (shorthand j ≡ ok (j.symbol ++ 47 ∷ q))
make_instrument-shorthand i {j} h p =
    let (same, passed) = make_instrument_inv i h in
    let (q, quoted, filled) = check_identity_quote j.identity (rw same at passed) p in
    (q, quoted, filled, shorthand_lem j q quoted (not_blank_not_empty q filled) p)

-- A candle passes its checks exactly when its times carry a zone and are in order, and its high
-- and low bound both its opening and its closing price.
pub check_candle_iff :
    (c : Candle)
    → (check_candle c ≡ ok tt) ↔ (
        (c.open_time.aware ≡ true)
        × (c.close_time.aware ≡ true)
        × (c.open_time.instant < c.close_time.instant)
        × (c.opening ≤ℤ c.high)
        × (c.close ≤ℤ c.high)
        × (c.low ≤ℤ c.opening)
        × (c.low ≤ℤ c.close))
unfolding check_candle
check_candle_iff c = (λ h. ground arith, λ h. ground arith)
