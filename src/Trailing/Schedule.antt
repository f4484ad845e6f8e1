-- ===== src/Trailing/Schedule.antt =====
-- The polling schedule of `trailing/worker.py`: the bounds of the backoff, when an instrument is due
-- again after a poll, and the time of the next candle close.
use unified_trading_executio.Base.{
  ℕ, zero, suc, ◌+◌, ◌*◌, ◌/◌, ◌^◌, ◌≤◌, ◌<◌, ◌≡◌, Bool-cases, inl, inr, ltb, ap, refl, ◌↔◌, Bool,
  true, false, not, ◌&&◌, Option, none, some, get_or, List, arith, Dict, lookup, insert,
  lookup-insert, lookup-erase_self, IsDict,
}
use unified_trading_executio.Decimal.{
  ℤ, pos, Decimal, unit, whole, ltb_ℤ, leb_ℤ, max_dec, min_dec, *ℤ_pos, scale_le, negsuc, ◌≤ℤ◌,
  ◌+ℤ◌, ◌-ℤ◌, ◌*ℤ◌, +ℤ_parts, -ℤ_parts,
}
use unified_trading_executio.Types.{InstrumentId, Instrument, instrument_key}
use unified_trading_executio.Trailing.Types.{TrailingConfig, TrailingState, CandleTimeframe}
use unified_trading_executio.Trailing.Worker.{
  timeframe_seconds, microseconds, next_candle_close, WorkerState, Fetched, rate_limited,
  fetch_failed, fetched, poll_interval, in_backoff, min_ℕ, is_due, backoff_delay, poll_instrument,
}
use native.Mathlib.Nat.{div-add-mod', mod-lt, pow-le-pow_right}

timeframe_pos : (f : CandleTimeframe) → 0 < timeframe_seconds f
unfolding timeframe_seconds
timeframe_pos f = ground arith

quotient_lt : (n m : ℕ) → 0 < m → n < (n / m + 1) * m
quotient_lt n m h = omega (arith, div-add-mod' n m, mod-lt n h)

quotient_le : (n m : ℕ) → (n / m + 1) * m ≤ n + m
quotient_le n m = omega (arith, div-add-mod' n m)

-- The next candle close that follows an instant is later than it, by at most the length of the
-- timeframe, before the settling time is added, and it is a whole number of timeframes.
pub next_candle_close_aligned :
    (as_of : ℕ) (f : CandleTimeframe) (settle : Decimal)
    → (n : ℕ) × (next_candle_close as_of f settle
        ≡ n * (timeframe_seconds f * 10 ^ 6) + microseconds settle)
      × (as_of < n * (timeframe_seconds f * 10 ^ 6))
      × (n * (timeframe_seconds f * 10 ^ 6) ≤ as_of + timeframe_seconds f * 10 ^ 6)
unfolding next_candle_close
next_candle_close_aligned as_of f settle =
    let w = timeframe_seconds f in
    let p = timeframe_pos f in
    let s = as_of / 10 ^ 6 in
    let lo = quotient_lt s w p in
    let hi = quotient_le s w in
    let up = quotient_lt as_of (10 ^ 6) (omega arith) in
    let down = quotient_le as_of (10 ^ 6) in
    (s / w + 1, ap (λ n. n + microseconds settle) (omega arith), omega arith, omega arith)

-- A base of at least a second is a number of quanta above zero.
module _ (x : ℕ) (long : unit ≤ x) where
  scaled_le : (p q : ℕ) → p ≤ q → pos x *ℤ pos p ≤ℤ pos x *ℤ pos q
  scaled_le p q h = rw (*ℤ_pos x p, *ℤ_pos x q) (omega (arith, scale_le x p q h))

  scaled_ge : (p : ℕ) → 0 < p → whole 1 ≤ℤ pos x *ℤ pos p
  unfolding whole
  scaled_ge p h = rw (*ℤ_pos x p) (omega (arith, scale_le x 1 p h))

capped_lem :
    (b : ℤ) (p q : ℕ)
    → whole 1 ≤ℤ b
    → 0 < p
    → p ≤ q
    → (whole 1 ≤ℤ min_dec (b *ℤ pos p) (whole 60))
      × (min_dec (b *ℤ pos p) (whole 60) ≤ℤ whole 60)
      × (min_dec (b *ℤ pos p) (whole 60) ≤ℤ min_dec (b *ℤ pos q) (whole 60))
unfolding whole
capped_lem (pos x) p q h pp pq =
    let l = scaled_le x (omega arith) p q pq in
    let g = scaled_ge x (omega arith) p pp in (ground arith, ground arith, ground arith)
capped_lem (negsuc x) p q h pp pq = absurd (omega arith)

pow_pos : (n : ℕ) → 0 < 2 ^ n
pow_pos zero = omega arith
pow_pos (suc n) = omega (arith, pow_pos n)

pow_le : (n : ℕ) → 2 ^ n ≤ 2 ^ (n + 1)
pow_le n = pow-le-pow_right (omega arith) (omega arith)

factor_le : (n : ℕ) → 2 ^ min_ℕ n 6 ≤ 2 ^ min_ℕ (n + 1) 6
factor_le n = elim (Bool-cases (ltb 5 n)) [
  | inl e ↦ let big : 5 < n = ground arith in ground arith
  | inr e ↦
      let small : ltb 6 n ≡ false = ground arith in
      let next : ltb 6 (n + 1) ≡ false = ground arith in rw (small, next) (pow_le n)
]

-- The backoff of an attempt lies between one second and one minute, and it does not decrease with
-- the number of attempts.
pub backoff_delay_bounds :
    (config : TrailingConfig) (n : ℕ)
    → (whole 1 ≤ℤ backoff_delay config n)
      × (backoff_delay config n ≤ℤ whole 60)
      × (backoff_delay config n ≤ℤ backoff_delay config (n + 1))
unfolding backoff_delay
backoff_delay_bounds config n =
    capped_lem (max_dec config.poll_interval_seconds (whole 1)) (2 ^ min_ℕ n 6)
      (2 ^ min_ℕ (n + 1) 6) (ground arith) (pow_pos (min_ℕ n 6)) (factor_le n)

-- At `t` the waiting time after a poll at `now` is over.
abbrev pub IsReleased :
    TrailingConfig → Decimal → WorkerState → Instrument → (now t : Decimal) → Fetched → Type 0
IsReleased config m s i now t rate_limited =
    (now +ℤ poll_interval config m ≤ℤ t)
    × (now +ℤ backoff_delay config (get_or (lookup i.identity s.backoff_attempts) 0 + 1) ≤ℤ t)
IsReleased config m s i now t _ = now +ℤ poll_interval config m ≤ℤ t

lookup-insert_self :
    {V : Type 0} (i : Instrument) (v : V) (d : Dict InstrumentId V)
    → lookup i.identity (insert i.identity v d) ≡ some v
lookup-insert_self i v d =
    ground
      (arith, lookup-insert i.identity i.identity v d, instrument_key.beq_iff i.identity i.identity)

elapsed_iff :
    (last interval t : Decimal) → (leb_ℤ interval (t -ℤ last) ≡ true) ↔ (last +ℤ interval ≤ℤ t)
elapsed_iff last interval t = ground (arith, +ℤ_parts last interval, -ℤ_parts t last)

released_iff :
    (b last interval t : Decimal)
    → ((not (ltb_ℤ t b) && leb_ℤ interval (t -ℤ last)) ≡ true)
      ↔ ((last +ℤ interval ≤ℤ t) × (b ≤ℤ t))
released_iff b last interval t = ground (arith, +ℤ_parts last interval, -ℤ_parts t last)

-- A backoff that is over stays so.
in_backoff_over :
    (b : Option Decimal) (now t : Decimal) (q : Bool)
    → now ≤ℤ t
    → (not (in_backoff b now) && q) ≡ true
    → in_backoff b t ≡ false
in_backoff_over none now t q le h = refl
in_backoff_over (some b) now t q le h = ground arith

-- An instrument that was due when it was polled is due again exactly when its polling interval has
-- passed, and after a rate limit error also the backoff.
pub poll_instrument-is_due :
    (config : TrailingConfig) (m : Decimal) (s : WorkerState) (i : Instrument)
    (group : List TrailingState)
    → (now t : Decimal) (f : Fetched) → IsDict s.backoff_until
    → now ≤ℤ t
    → is_due config m s i now ≡ true
    → (is_due config m ((poll_instrument config s i group now f).0) i t ≡ true)
      ↔ IsReleased config m s i now t f
unfolding is_due poll_instrument
poll_instrument-is_due config m s i group now t rate_limited dict le due =
    (rw
      (
        lookup-insert_self i now s.last_fetch,
        lookup-insert_self i
            (now +ℤ backoff_delay config (get_or (lookup i.identity s.backoff_attempts) 0 + 1))
            s.backoff_until,
      )
      (released_iff
        (now +ℤ backoff_delay config (get_or (lookup i.identity s.backoff_attempts) 0 + 1)) now
        (poll_interval config m) t))
poll_instrument-is_due config m s i group now t (fetch_failed reason) dict le due =
    (rw
      (
        lookup-insert_self i now s.last_fetch,
        in_backoff_over (lookup i.identity s.backoff_until) now t _ le due,
      )
      (elapsed_iff now (poll_interval config m) t))
poll_instrument-is_due config m s i group now t (fetched answer) dict le due =
    (rw (lookup-insert_self i now s.last_fetch, lookup-erase_self i.identity s.backoff_until dict)
      (elapsed_iff now (poll_interval config m) t))
