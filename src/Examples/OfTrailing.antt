-- ===== src/Examples/OfTrailing.antt =====
-- A trailing stop five percent behind the market, the ranges of four candles, and a worker.
use unified_trading_executio.Base.{◌≡◌, refl, ◌↔◌, true, some, none, List, [], ◌∷◌, All, ok, arith}
use unified_trading_executio.Decimal.{Decimal, decimals}
use unified_trading_executio.Types.{buy, InstrumentId-discrete, instrument_key}
use unified_trading_executio.Trailing.{
  check_spec, check_activation, check_atr, uses_atr, candidate_stop, candidate_of, loss_factor,
  true_range, ranges, ranges_after, wilder_atr, is_due, poll_interval, poll_instrument,
  rate_limited,
}
use unified_trading_executio.Trailing.SpecChecks.{IsValidSpec, check_spec_iff}
use unified_trading_executio.Trailing.Candidate.{
  Improves, candidate_stop_total, candidate_stop_mono,
}
use unified_trading_executio.Trailing.Ratchet.{follow, Holds, follow-Holds, follow_tightest}
use unified_trading_executio.Trailing.AtrBounds.{Within, wilder_atr_bounds}
use unified_trading_executio.Trailing.Schedule.{IsReleased, poll_instrument-is_due}
use unified_trading_executio.Examples.Samples.{
  dec, five_percent, candles, pair, worker_config, worker,
}

check_spec_iff_example : (check_spec five_percent ≡ ok tt) ↔ IsValidSpec five_percent
check_spec_iff_example = check_spec_iff five_percent

five_percent_checked : check_spec five_percent ≡ ok tt
unfolding check_spec check_activation check_atr uses_atr decimals
five_percent_checked = refl

candidate_stop_total_example :
    (c : Decimal) × (candidate_stop buy (dec 100) five_percent none ≡ ok c)
    × Improves buy c (dec 100)
candidate_stop_total_example =
    candidate_stop_total buy (dec 100) five_percent none five_percent_checked tt (omega arith)

at_100 : candidate_stop buy (dec 100) five_percent none ≡ ok (dec 95)
unfolding candidate_stop candidate_of loss_factor decimals
at_100 = refl

at_120 : candidate_stop buy (dec 120) five_percent none ≡ ok (dec 114)
unfolding candidate_stop candidate_of loss_factor decimals
at_120 = refl

candidate_stop_mono_example : Improves buy (dec 95) (dec 114)
candidate_stop_mono_example =
    candidate_stop_mono buy (dec 100) (dec 120) five_percent none five_percent_checked (omega arith)
      at_100 at_120

abbrev offered : List Decimal
offered = dec 95 ∷ dec 97 ∷ dec 96 ∷ []

follow-Holds_example : Holds buy (dec 94) (follow buy (some (dec 1)) (some (dec 94)) offered)
follow-Holds_example = follow-Holds buy (some (dec 1)) (dec 94) offered

follow_tightest_example : All (λ c. Holds buy c (follow buy none none offered)) offered
follow_tightest_example = follow_tightest buy none offered

ranges_small : All (Within 4 5) (ranges candles)
unfolding ranges ranges_after true_range decimals
ranges_small =
    ((omega arith, omega arith), ((omega arith, omega arith), ((omega arith, omega arith), tt)))

wilder_atr_bounds_example : (a : Decimal) × (wilder_atr candles 2 ≡ ok a) × Within 4 5 a
wilder_atr_bounds_example = wilder_atr_bounds 4 5 2 candles (omega arith) (omega arith) ranges_small

worker_due : is_due worker_config (dec 1) worker pair (dec 13) ≡ true
unfolding is_due poll_interval InstrumentId-discrete decimals
worker_due = refl

poll_instrument-is_due_example :
    (is_due worker_config
        (dec 1)
        ((poll_instrument worker_config worker pair [] (dec 13) rate_limited).0)
        pair
        (dec 18)
      ≡ true)
    ↔ IsReleased worker_config (dec 1) worker pair (dec 13) (dec 18) rate_limited
poll_instrument-is_due_example =
    poll_instrument-is_due worker_config (dec 1) worker pair [] (dec 13) (dec 18) rate_limited tt
      (omega arith) worker_due
