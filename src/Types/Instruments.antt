-- ===== src/Types/Instruments.antt =====
-- `types/instrument.py`: the identifier of an instrument and its trading rules.
use native.Mathlib.Decide.{ℕ_discrete}
use unified_trading_executio.Base.{
  ℕ, Bool, true, false, ◌&&◌, ◌||◌, not, Option, none, some, is_some, Result, ok, err, value_error,
  raise_if, if◌then◌else◌, is_empty, ◌>>◌, Key, key_of_discrete, ◌++◌, ◌∷◌,
}
use unified_trading_executio.Decimal.{ℤ, Decimal}
use unified_trading_executio.Types.Enums.{AssetClass, OptionRight}
use unified_trading_executio.Types.Strings.{
  Text, upper, is_blank, upper_optional, is_blank_optional,
}

-- What `Instrument` compares and hashes: every field but `platform_symbol`.
pub record InstrumentId : Type 0 where
  pub symbol : Text
  pub asset_class : AssetClass
  pub quote_currency : Option Text
  pub exchange : Option Text
  pub currency : Option Text
  -- a date, as its ordinal
  pub expiry : Option ℕ
  pub strike : Option Decimal
  pub option_right : Option OptionRight
  pub multiplier : Option ℤ

pub record Instrument : Type 0 where
  pub identity : InstrumentId
  pub open identity use *
  pub platform_symbol : Option Text

unfoldable pub InstrumentId-discrete : Discrete InstrumentId
unfolding ℕ_discrete
InstrumentId-discrete = hlevel ℕ_discrete

instance abbrev pub instrument_key : Key InstrumentId
instrument_key = key_of_discrete InstrumentId-discrete

-- The first part of `__post_init__`: the identifier fields in upper case.
unfoldable pub normalize : Instrument → Instrument
normalize i =
    let key = i.identity in
    record i {
      identity = record key {
        symbol = upper key.symbol;
        quote_currency = upper_optional key.quote_currency;
        currency = upper_optional key.currency;
      };
    }

-- `asset_class in (AssetClass.SPOT, AssetClass.MARGIN_FX)`
unfoldable pub is_pair : AssetClass → Bool
is_pair AssetClass.spot = true
is_pair AssetClass.margin_fx = true
is_pair _ = false

unfoldable pub is_futures : AssetClass → Bool
is_futures AssetClass.futures = true
is_futures _ = false

unfoldable pub is_option : AssetClass → Bool
is_option AssetClass.option = true
is_option _ = false

unfoldable pub is_perpetual : InstrumentId → Bool
unfolding is_futures
is_perpetual key = is_futures key.asset_class && not (is_some key.expiry)

-- The checks of `__post_init__`, in their order, on the normalised fields.
unfoldable pub check_identity : InstrumentId → Result (Unit {0})
unfolding is_pair is_futures is_option is_perpetual
check_identity key = do
  raise_if (is_blank key.symbol) value_error
  raise_if (is_blank_optional key.quote_currency) value_error
  raise_if (is_blank_optional key.currency) value_error
  raise_if ((is_pair key.asset_class || is_perpetual key) && not (is_some key.quote_currency))
      value_error
  raise_if (is_option key.asset_class && not (is_some key.expiry)) value_error
  raise_if (is_option key.asset_class && not (is_some key.strike)) value_error
  raise_if (is_option key.asset_class && not (is_some key.option_right)) value_error
  raise_if
      ((is_futures key.asset_class || is_option key.asset_class) && not (is_some key.multiplier))
      value_error

-- `Instrument(...)`, with `__post_init__`.
unfoldable pub make_instrument : Instrument → Result Instrument
make_instrument i = do let n = normalize i; check_identity n.identity; ok n

-- `Instrument.__str__`: the shorthand of pairs and perpetuals.
unfoldable pub shorthand : Instrument → Result Text
unfolding is_pair is_perpetual
shorthand i = elim i.quote_currency [
  | some quote ↦
      if is_pair i.asset_class || is_perpetual i.identity
      then (if is_empty quote then err value_error else ok (i.symbol ++ 47 ∷ quote))
      else err value_error
  | none ↦ err value_error
]

pub record InstrumentSpec : Type 0 where
  pub tick_size : Decimal
  pub lot_size : Decimal
  pub min_qty : Decimal
  pub max_qty : Decimal
  pub min_notional : Decimal
  pub price_precision : ℕ
  pub qty_precision : ℕ
  pub max_leverage : Option Decimal
  pub min_stop_distance : Option Decimal
