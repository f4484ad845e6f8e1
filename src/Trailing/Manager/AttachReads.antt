-- ===== src/Trailing/Manager/AttachReads.antt =====
-- Steps of attaching that only read, and what they return (`trailing/manager.py`).
use unified_trading_executio.Base.{
  ℕ, ◌≡◌, refl, not, Option, none, some, Result, ok, err, proceed, pure, subst,
}
use unified_trading_executio.Types.{Ident, Instrument}
use unified_trading_executio.Trailing.{TrailingSpec, uses_atr, wilder_atr, CandleTimeframe}
use unified_trading_executio.Trailing.Manager.{
  Venue, TrailingManager, Step, ◌>>=◌, give, load_atr, atr_from, read_ticker, read_candles,
  read_leg, draw_id,
}
use unified_trading_executio.Trailing.Manager.Quiet.{
  give-Leaves, pure-Leaves, >>=-Leaves, if-Leaves,
}
use unified_trading_executio.Trailing.Manager.Writes.{writes, IsReading, added}

pub candles-IsReading :
    (v : Venue) (i : Instrument) (t : CandleTimeframe) (limit : ℕ)
    → IsReading (read_candles v i t limit)
unfolding read_candles
candles-IsReading v i t limit = record { same = λ m. added m _ refl }

pub ticker-IsReading : (v : Venue) (i : Instrument) → IsReading (read_ticker v i)
unfolding read_ticker
ticker-IsReading v i = record { same = λ m. added m _ refl }

pub leg-IsReading :
    (v : Venue) (i : Instrument) (position_id : Ident) → IsReading (read_leg v i position_id)
unfolding read_leg
leg-IsReading v i position_id = record { same = λ m. added m _ refl }

pub id-IsReading : (v : Venue) → IsReading (draw_id v)
unfolding draw_id
id-IsReading v = record { same = λ m. refl }

pub atr-IsReading :
    (v : Venue) (i : Instrument) (period : Option ℕ) (timeframe : Option CandleTimeframe)
    → IsReading (atr_from v i period timeframe)
atr-IsReading v i none timeframe = pure-Leaves _
atr-IsReading v i (some p) none = pure-Leaves _
atr-IsReading v i (some p) (some t) =
    >>=-Leaves _ _ (candles-IsReading v i t _)
      (λ cs. >>=-Leaves _ _ (pure-Leaves (wilder_atr cs p)) (λ a. give-Leaves _))

pub load-IsReading :
    (v : Venue) (spec : TrailingSpec) (i : Instrument) → IsReading (load_atr v spec i)
unfolding load_atr
load-IsReading v spec i =
    if-Leaves (not (uses_atr spec)) _ _ (give-Leaves _)
      (atr-IsReading v i spec.atr_period spec.atr_timeframe)

-- The step writes nothing, and `P` holds of every value that it returns.
pub record Yields {A : Type 0} (P : A → Type 0) (step : Step A) : Type 0 where
  pub quiet : IsReading step
  pub at : (m : TrailingManager) (a : A) → (step m).1 ≡ ok a → P a

pure-same :
    {A B : Type 0} (m : TrailingManager) (r : Result A) (rest : A → Step B)
    → ((a : A) → r ≡ ok a → IsReading (rest a))
    → writes (proceed (m, r) rest).0 ≡ writes m
pure-same m (ok a) rest k = (k a refl).same m
pure-same m (err e) rest k = refl

module _ {A B : Type 0} {P : B → Type 0} where
  then-ok :
      (run : TrailingManager × Result A) (rest : A → Step B) (b : B)
      → (proceed run rest).1 ≡ ok b
      → ((a : A) → run.1 ≡ ok a → Yields P (rest a))
      → P b
  then-ok (n, ok a) rest b h k = (k a refl).at n b h
  then-ok (n, err e) rest b h k = absurd (cc h)

  pub then-Yields :
      (step : Step A) (rest : A → Step B)
      → IsReading step
      → ((a : A) → Yields P (rest a))
      → Yields P (step >>= rest)
  then-Yields step rest q k = record {
    quiet = >>=-Leaves step rest q (λ a. (k a).quiet);
    at = λ m b h. then-ok (step m) rest b h (λ a _. k a);
  }

  pub pure-Yields :
      (r : Result A) (rest : A → Step B)
      → ((a : A) → r ≡ ok a → Yields P (rest a))
      → Yields P (pure r >>= rest)
  pure-Yields r rest k = record {
    quiet = record { same = λ m. pure-same m r rest (λ a is_a. (k a is_a).quiet) };
    at = λ m b h. then-ok (m, r) rest b h k;
  }

pub give-Yields : {A : Type 0} {P : A → Type 0} (a : A) → P a → Yields P (give a)
give-Yields {P = P} a h = record {
  quiet = give-Leaves a;
  at = λ m b e. let same : a ≡ b = cc e in subst P same h;
}
