-- ===== src/Trailing/Worker.antt =====
-- `trailing/worker.py`: when an instrument is polled, what a poll does, and when the next candle
-- closes. The dicts are keyed by the identity of an instrument, which is what its equality compares.
-- A time of the monotonic clock is a decimal of seconds, a wall time an instant in
-- microseconds; the answer of the adapter to a fetch is a value that is given to the poll.
use unified_trading_executio.Base.{
  ℕ, ◌+◌, ◌*◌, ◌/◌, ◌^◌, Bool, true, false, not, ◌&&◌, Option, none, some, get_or, List, [], ◌∷◌,
  ltb, if◌then◌else◌, Dict, lookup, insert, erase,
}
use unified_trading_executio.Decimal.{
  pos, pos_part, Decimal, whole, max_dec, min_dec, ltb_ℤ, leb_ℤ, ◌+ℤ◌, ◌-ℤ◌, ◌*ℤ◌, round_div,
  round_half_even,
}
use unified_trading_executio.Types.{Ident, InstrumentId, Instrument, instrument_key, Ticker}
use unified_trading_executio.Trailing.Types.{
  CandleTimeframe, m1, m5, m15, m30, h1, h4, h8, h12, d1, TrailingConfig, TrailingState,
}

-- `_TIMEFRAME_SECONDS`
unfoldable pub timeframe_seconds : CandleTimeframe → ℕ
timeframe_seconds m1 = 60
timeframe_seconds m5 = 300
timeframe_seconds m15 = 900
timeframe_seconds m30 = 1800
timeframe_seconds h1 = 3600
timeframe_seconds h4 = 14400
timeframe_seconds h8 = 28800
timeframe_seconds h12 = 43200
timeframe_seconds d1 = 86400

-- `timedelta(seconds=d)` for a `d` of at least zero.
unfoldable pub microseconds : Decimal → ℕ
microseconds d = round_div round_half_even (pos_part d) (10 ^ 22)

-- `_next_candle_close`
unfoldable pub next_candle_close : (as_of : ℕ) → CandleTimeframe → (settle_seconds : Decimal) → ℕ
next_candle_close as_of timeframe settle =
    let seconds = timeframe_seconds timeframe in
    (as_of / 10 ^ 6 / seconds + 1) * seconds * 10 ^ 6 + microseconds settle

pub record WorkerState : Type 0 where
  pub last_fetch : Dict InstrumentId Decimal
  pub backoff_until : Dict InstrumentId Decimal
  pub backoff_attempts : Dict InstrumentId ℕ

-- What the adapter answers: a rate limit error, another error with its reason, or a ticker.
pub data Fetched : Type 0 where
  rate_limited : Fetched
  fetch_failed : (reason : Ident) → Fetched
  fetched : Option Ticker → Fetched

-- The calls of the trailing manager that a poll makes.
pub data ManagerCall : Type 0 where
  on_ticker : (trailing_id : Ident) → Ticker → ManagerCall
  on_ticker_failure : (trailing_id : Ident) → (reason : Option Ident) → ManagerCall
  publish_ticker_event : Instrument → Ticker → ManagerCall

-- `backoff is not None and now < backoff`
abbrev pub in_backoff : (until : Option Decimal) → (now : Decimal) → Bool
in_backoff none now = false
in_backoff (some b) now = ltb_ℤ now b

-- `last is None or now - last >= interval`
abbrev pub elapsed : (last : Option Decimal) → (now interval : Decimal) → Bool
elapsed none now interval = true
elapsed (some t) now interval = leb_ℤ interval (now -ℤ t)

-- `max(poll_interval_seconds, capability.min_ticker_interval_seconds)`
unfoldable pub poll_interval : TrailingConfig → (min_ticker_interval : Decimal) → Decimal
poll_interval config m = max_dec config.poll_interval_seconds m

-- `TrailingWorker._due`
unfoldable pub is_due :
    TrailingConfig
    → (min_ticker_interval : Decimal) → WorkerState
    → Instrument
    → (now : Decimal) → Bool
is_due config m s i now =
    not (in_backoff (lookup i.identity s.backoff_until) now)
    && elapsed (lookup i.identity s.last_fetch) now (poll_interval config m)

-- `min(a, b)`
abbrev pub min_ℕ : ℕ → ℕ → ℕ
min_ℕ a b = if ltb b a then b else a

-- The seconds that a poll backs off after the given number of rate limit errors in a row.
unfoldable pub backoff_delay : TrailingConfig → (attempt : ℕ) → Decimal
backoff_delay config attempt =
    min_dec (max_dec config.poll_interval_seconds (whole 1) *ℤ pos (2 ^ min_ℕ attempt 6)) (whole 60)

fail_all : (reason : Option Ident) → List TrailingState → List ManagerCall
fail_all reason [] = []
fail_all reason (s ∷ ss) = on_ticker_failure s.trailing_id reason ∷ fail_all reason ss

tick_all : Ticker → List TrailingState → List ManagerCall
tick_all t [] = []
tick_all t (s ∷ ss) = on_ticker s.trailing_id t ∷ tick_all t ss

-- What is told to the manager once a fetch was answered without an error.
tell : TrailingConfig → Instrument → List TrailingState → Option Ticker → List ManagerCall
unfolding fail_all tick_all
tell config i group none = fail_all none group
tell config i group (some t) =
    if config.publish_ticker_events
    then publish_ticker_event i t ∷ tick_all t group
    else tick_all t group

-- `TrailingWorker._poll_instrument`
unfoldable pub poll_instrument :
    TrailingConfig
    → WorkerState
    → Instrument
    → List TrailingState
    → (now : Decimal) → Fetched
    → WorkerState × List ManagerCall
unfolding fail_all tell
poll_instrument config s i group now rate_limited =
    let attempt = get_or (lookup i.identity s.backoff_attempts) 0 + 1 in
    (
      record {
        last_fetch = insert i.identity now s.last_fetch;
        backoff_until = insert i.identity (now +ℤ backoff_delay config attempt) s.backoff_until;
        backoff_attempts = insert i.identity attempt s.backoff_attempts;
      },
      [],
    )
poll_instrument config s i group now (fetch_failed reason) =
    (record s { last_fetch = insert i.identity now s.last_fetch }, fail_all (some reason) group)
poll_instrument config s i group now (fetched answer) = (
  record {
    last_fetch = insert i.identity now s.last_fetch;
    backoff_until = erase i.identity s.backoff_until;
    backoff_attempts = erase i.identity s.backoff_attempts;
  },
  tell config i group answer,
)
