-- ===== src/Trailing/Manager/Stuck.antt =====
-- A state that was degraded for its ATR, after its stop was moved (`on_ticker`, `on_atr` and
-- `on_atr_failure` of `trailing/manager.py`).
use unified_trading_executio.Base.{
  ◌+◌, ◌≡◌, refl, sym, ap, ◌∙◌, inl, inr, true, false, ◌&&◌, Option, none, some, List, [], ◌∷◌,
  Bool-cases, arith, if◌then◌else◌, lookup, insert, ℕ_key, proceed_ind, subst,
}
use unified_trading_executio.Decimal.{Decimal, pos, ltb_ℤ}
use unified_trading_executio.Types.{Ident, DateTime}
use unified_trading_executio.Trailing.{
  degraded, TrailingState, Reason, is_atr_error, is_protection_error, uses_atr, check_state,
}
use unified_trading_executio.Trailing.Manager.{
  Venue, TrailingManager, Step, ◌>>=◌, ◌>>◌, give, confirmed, after_verdict, on_ticker_failure,
  on_atr, on_atr_failure, require_ready, get_trailing_state, upsert_trailing_state, publish,
  write_audit, gap_audit, is_degraded, is_synthetic, is_watched, when_watched, found,
  record_fetch_failure, bump_fetch, failures_of, refresh_atr, reset_atr, refreshed, read_clock,
  announce_refreshed, count_atr_failure, bump_atr, mark_stale,
}
use unified_trading_executio.Trailing.Manager.FailureCounts.{lookup_inserted, found-keeps}

-- The row is degraded, without an error that says why.
pub record IsStuck (i : Ident) (m : TrailingManager) : Type 0 where
  pub row : TrailingState
  pub here : lookup i m.states ≡ some row
  pub same_id : row.trailing_id ≡ i
  pub stays_degraded : row.phase ≡ degraded
  pub no_error : row.last_error ≡ none

-- What the worker tells of a row, apart from a ticker.
pub data Signal : Type 0 where
  ticker_failed : Reason → Signal
  atr_computed : (atr : Decimal) → (as_of : DateTime) → Signal
  atr_failed : Reason → Signal

abbrev pub after_signals :
    Venue → (trailing_id : Ident) → List Signal → TrailingManager → TrailingManager
after_signals v i [] m = m
after_signals v i (ticker_failed r ∷ xs) m = after_signals v i xs (on_ticker_failure v i r m).0
after_signals v i (atr_computed a t ∷ xs) m = after_signals v i xs (on_atr v i a t m).0
after_signals v i (atr_failed r ∷ xs) m = after_signals v i xs (on_atr_failure v i r m).0

-- The row stays while the table of states does.
kept_by : {i : Ident} (m n : TrailingManager) → n.states ≡ m.states → IsStuck i m → IsStuck i n
kept_by {i = i} m n same h = record {
  row = h.row;
  here = ap (lookup i) same ∙ h.here;
  same_id = h.same_id;
  stays_degraded = h.stays_degraded;
  no_error = h.no_error;
}

-- The entry of every method.
entry-IsStuck :
    {A : Type 0} (v : Venue) (i : Ident) (m : TrailingManager) (f : Option TrailingState → Step A)
    → (h : IsStuck i m) → IsStuck i (f (some h.row) m).0
    → IsStuck i ((require_ready v >> (get_trailing_state i >>= f)) m).0
unfolding require_ready get_trailing_state
entry-IsStuck v i m f h k = elim (Bool-cases v.is_connected) [
  | inl on ↦ simp (on, h.here) k
  | inr off ↦ rw off h
]

watched-IsStuck :
    (i : Ident) (m : TrailingManager) (f : TrailingState → Step (Option TrailingState))
    → (h : IsStuck i m) → IsStuck i (f h.row m).0
    → IsStuck i (when_watched f (some h.row) m).0
watched-IsStuck i m f h k = elim (Bool-cases (is_synthetic h.row.mode)) [
  | inl made ↦ elim (Bool-cases (is_watched h.row.phase)) [
    | inl w ↦ rw (made, w) k
    | inr idle ↦ rw (made, idle) h
  ]
  | inr other ↦ rw other h
]

found-IsStuck :
    (i : Ident) (m : TrailingManager) (step : Step TrailingState)
    → IsStuck i (step m).0
    → IsStuck i (found step m).0
found-IsStuck i m step k = subst (λ x. IsStuck i x) (sym (found-keeps (step m))) k

if_atr-IsStuck :
    (i : Ident) (m : TrailingManager) (s : TrailingState) (step : Step TrailingState)
    → IsStuck i m
    → IsStuck i (step m).0
    → IsStuck i ((if uses_atr s.spec then found step else give (some s)) m).0
if_atr-IsStuck i m s step h k = elim (Bool-cases (uses_atr s.spec)) [
  | inl atr ↦ rw atr (found-IsStuck i m step k)
  | inr other ↦ rw other h
]

fetch_failure-kept :
    (v : Venue) (s : TrailingState) (r : Reason) (m : TrailingManager)
    → is_degraded s.phase ≡ true
    → (record_fetch_failure v s r m).0.states ≡ m.states
unfolding record_fetch_failure bump_fetch
fetch_failure-kept v s r m deg =
    elim (Bool-cases (
      ltb_ℤ (pos (failures_of s.trailing_id m.fetch_failures + 1))
        v.config.fetch_failure_threshold)) [
          | inl few ↦ rw few refl
          | inr many ↦ rw (many, deg) refl
        ]

atr_failure-kept :
    (v : Venue) (s : TrailingState) (r : Reason) (m : TrailingManager)
    → is_degraded s.phase ≡ true
    → is_atr_error s.last_error ≡ false
    → (count_atr_failure v r s m).0.states ≡ m.states
unfolding count_atr_failure bump_atr mark_stale
atr_failure-kept v s r m deg fresh =
    elim (Bool-cases (
      ltb_ℤ (pos (failures_of s.trailing_id m.atr_failures + 1))
        v.config.atr_stale_after_candles)) [
          | inl few ↦ rw few refl
          | inr many ↦ rw (many, deg, fresh) refl
        ]

refresh-IsStuck :
    (v : Venue) (i : Ident) (atr : Decimal) (as_of : DateTime) (m : TrailingManager)
    → (h : IsStuck i m) → IsStuck i (refresh_atr v atr as_of h.row m).0
unfolding refresh_atr reset_atr read_clock upsert_trailing_state announce_refreshed
refresh-IsStuck v i atr as_of m h =
    let now = v.clock m.readings in
    let calm : (is_degraded h.row.phase && is_atr_error h.row.last_error) ≡ false =
      rw (h.stays_degraded, h.no_error) refl in
    proceed_ind (λ x. IsStuck i x.0)
      (
        record m {
          atr_failures = insert h.row.trailing_id 0 m.atr_failures;
          readings = m.readings + 1;
        },
        check_state (refreshed h.row atr as_of now),
      )
      _ (λ e _. kept_by m _ refl h)
      (λ _ _. rw calm (record {
        row = record h.row { atr_value = some atr; atr_as_of = some as_of; updated_at = now };
        here = lookup_inserted h.row.trailing_id i _ m.states h.same_id;
        same_id = h.same_id;
        stays_degraded = h.stays_degraded;
        no_error = h.no_error;
      }))

pub after_signals-IsStuck :
    (v : Venue) (i : Ident) (xs : List Signal) (m : TrailingManager)
    → IsStuck i m
    → IsStuck i (after_signals v i xs m)
unfolding on_ticker_failure on_atr on_atr_failure
after_signals-IsStuck v i [] m h = h
after_signals-IsStuck v i (ticker_failed r ∷ xs) m h = after_signals-IsStuck v i xs _ (
    entry-IsStuck v i m _ h (
      watched-IsStuck i m (λ s. found (record_fetch_failure v s r)) h
        (found-IsStuck i m (record_fetch_failure v h.row r)
          (kept_by m _ (fetch_failure-kept v h.row r m (rw h.stays_degraded refl)) h))))
after_signals-IsStuck v i (atr_computed a t ∷ xs) m h = after_signals-IsStuck v i xs _ (
    entry-IsStuck v i m _ h (
      watched-IsStuck i m
        (λ s. if uses_atr s.spec then found (refresh_atr v a t s) else give (some s)) h
        (if_atr-IsStuck i m h.row (refresh_atr v a t h.row) h (refresh-IsStuck v i a t m h))))
after_signals-IsStuck v i (atr_failed r ∷ xs) m h = after_signals-IsStuck v i xs _ (
    entry-IsStuck v i m _ h (
      watched-IsStuck i m
        (λ s. if uses_atr s.spec then found (count_atr_failure v r s) else give (some s)) h
        (if_atr-IsStuck i m h.row (count_atr_failure v r h.row) h (
          kept_by m _ (atr_failure-kept v h.row r m (rw h.stays_degraded refl) (rw h.no_error refl))
            h))))

-- Once the platform has confirmed a new stop for a row that is degraded for its ATR, the row is
-- degraded without an error, and it stays so whatever ATRs are computed for it afterwards, and
-- whatever failures of tickers and ATRs are told.
pub after_verdict-IsStuck :
    (v : Venue) (s : TrailingState) (activation : Option Decimal) (now : DateTime) (stop : Decimal)
    (xs : List Signal) (m : TrailingManager)
    → s.phase ≡ degraded
    → is_atr_error s.last_error ≡ true
    → IsStuck s.trailing_id
        (after_signals v s.trailing_id xs (after_verdict v s activation now (confirmed stop) m).0)
unfolding upsert_trailing_state publish write_audit gap_audit
after_verdict-IsStuck v s activation now stop xs m deg stale =
    let calm : is_protection_error s.last_error ≡ false = ground (arith, stale) in
    let moved : IsStuck s.trailing_id (record m {
      states =
          insert s.trailing_id
            (record s {
              current_stop = some stop;
              resolved_activation_price = activation;
              activated = true;
              stop_owned = true;
              reprice_count = s.reprice_count + 1;
              failure_count = 0;
              last_error = none;
              updated_at = now;
            })
            m.states;
    }) =
      record {
        row = _;
        here = lookup_inserted s.trailing_id s.trailing_id _ m.states refl;
        same_id = refl;
        stays_degraded = deg;
        no_error = refl;
      } in
    after_signals-IsStuck v s.trailing_id xs _
      (elim (Bool-cases (v.protection_capability s.instrument).reprice_gap) [
        | inl gap ↦ rw (calm, gap) (kept_by _ _ refl moved)
        | inr whole ↦ rw (calm, whole) (kept_by _ _ refl moved)
      ])
