-- ===== src/Trailing/Manager/FailureCounts.antt =====
-- How many failures to sample a ticker degrade a state (`on_ticker_failure` of
-- `trailing/manager.py`).
use unified_trading_executio.Base.{
  ℕ, zero, suc, ◌+◌, ◌<◌, ◌≤◌, ◌≡◌, refl, ap, sym, ◌∙◌, ◌↔◌, inl, inr, true, false, some, Dict,
  Result, ok, err, proceed, subst, Bool-cases, arith, ltb, lookup, insert, ℕ_key, get_or,
  lookup-insert, nat_eqb_iff,
}
use unified_trading_executio.Decimal.{ℤ, pos, ltb_ℤ}
use unified_trading_executio.Types.{Ident}
use unified_trading_executio.Trailing.{
  armed, degraded, synthetic, TrailingState, Reason, fetch_error,
}
use unified_trading_executio.Trailing.Manager.{
  Venue, TrailingManager, give, require_ready, get_trailing_state, upsert_trailing_state,
  is_synthetic, is_watched, is_degraded, on_ticker_failure, record_fetch_failure, bump_fetch,
  failures_of, read_clock, announce_degraded, publish, write_audit,
}

-- A row after `n` failures, with a threshold of `k`: as it was before there are `k` of them, and
-- degraded by the reason from then on.
pub record IsDegradedFrom (k n : ℕ) (r : Reason) (s t : TrailingState) : Type 0 where
  pub before : n < k → t ≡ s
  pub after : k ≤ n → (t.phase ≡ degraded) × (t.last_error ≡ some (fetch_error r))

-- The row, and the count of its failures.
pub record Counted (k n : ℕ) (i : Ident) (r : Reason) (s : TrailingState) (m : TrailingManager)
    : Type 0 where
  pub count : failures_of i m.fetch_failures ≡ n
  pub row : TrailingState
  pub here : lookup i m.states ≡ some row
  pub is_degraded : IsDegradedFrom k n r s row
  pub same_id : row.trailing_id ≡ i
  pub same_mode : is_synthetic row.mode ≡ true
  pub watched : is_watched row.phase ≡ true

abbrev pub after_failures :
    Venue → (trailing_id : Ident) → Reason → ℕ → TrailingManager → TrailingManager
after_failures v i r zero m = m
after_failures v i r (suc n) m = (on_ticker_failure v i r (after_failures v i r n m)).0

pub lookup_inserted :
    {V : Type 0} (k i : Ident) (x : V) (d : Dict Ident V) → k ≡ i → lookup i (insert k x d) ≡ some x
lookup_inserted k i x d same = lookup-insert k i x d ∙ rw ((nat_eqb_iff k i).1 same) refl

is_below : (c n k : ℕ) (t : ℤ) → c ≡ n → t ≡ pos k → (ltb_ℤ (pos (c + 1)) t ≡ true) ↔ (n + 1 < k)
is_below c n k t same threshold = ground (arith, same, threshold)

-- A row that is degraded already is degraded for `k` failures.
degraded_already :
    (k n : ℕ) (r : Reason) (s t : TrailingState)
    → is_degraded s.phase ≡ false
    → is_degraded t.phase ≡ true
    → IsDegradedFrom k n r s t
    → k ≤ n
degraded_already k n r s t fresh again h = elim (Bool-cases (ltb n k)) [
  | inl few ↦ absurd (
      let same : t ≡ s = h.before (ground arith) in
      let fresh' : is_degraded t.phase ≡ false = ap (λ x. is_degraded x.phase) same ∙ fresh in
      cc (again, fresh'))
  | inr many ↦ ground arith
]

-- One more failure, on the row itself.
record_one :
    (v : Venue) (k n : ℕ) (i : Ident) (r : Reason) (s : TrailingState) (m : TrailingManager)
    → v.config.fetch_failure_threshold ≡ pos k
    → is_degraded s.phase ≡ false
    → (h : Counted k n i r s m) → Counted k (n + 1) i r s (record_fetch_failure v h.row r m).0
unfolding record_fetch_failure bump_fetch upsert_trailing_state read_clock announce_degraded publish
    write_audit
record_one v k n i r s m threshold fresh h =
    let counted : failures_of h.row.trailing_id m.fetch_failures ≡ n =
      ap (λ j. failures_of j m.fetch_failures) h.same_id ∙ h.count in
    let next : failures_of i (
          insert h.row.trailing_id (failures_of h.row.trailing_id m.fetch_failures + 1)
            m.fetch_failures)
        ≡ n + 1 =
      ap (λ o. get_or o 0) (lookup_inserted h.row.trailing_id i _ m.fetch_failures h.same_id)
      ∙ ap (λ x. x + 1) counted in
    let below = is_below _ n k v.config.fetch_failure_threshold counted threshold in
    elim (Bool-cases (
      ltb_ℤ (pos (failures_of h.row.trailing_id m.fetch_failures + 1))
        v.config.fetch_failure_threshold)) [
          | inl few ↦ rw few (record {
            count = next;
            row = h.row;
            here = h.here;
            is_degraded = record {
              before = λ _. h.is_degraded.before (omega (arith, below.0 few));
              after = λ le. absurd (omega (arith, below.0 few, le));
            };
            same_id = h.same_id;
            same_mode = h.same_mode;
            watched = h.watched;
          })
          | inr many ↦ elim (Bool-cases (is_degraded h.row.phase)) [
            | inl again ↦
                rw (many, again)
                  (record {
                    count = next;
                    row = h.row;
                    here = h.here;
                    is_degraded = record {
                      before = λ lt. absurd (cc (many, below.1 lt));
                      after = λ _.
                          h.is_degraded.after
                            (degraded_already k n r s h.row fresh again h.is_degraded);
                    };
                    same_id = h.same_id;
                    same_mode = h.same_mode;
                    watched = h.watched;
                  })
            | inr first ↦
                rw (many, first)
                  (record {
                    count = next;
                    row = _;
                    here = lookup_inserted h.row.trailing_id i _ m.states h.same_id;
                    is_degraded = record {
                      before = λ lt. absurd (cc (many, below.1 lt));
                      after = λ _. (refl, refl);
                    };
                    same_id = h.same_id;
                    same_mode = h.same_mode;
                    watched = refl;
                  })
          ]
        ]

pub found-keeps :
    (run : TrailingManager × Result TrailingState) → (proceed run (λ s. give (some s))).0 ≡ run.0
found-keeps (m, ok s) = refl
found-keeps (m, err e) = refl

-- A failure of the row's ticker.
failure_one :
    (v : Venue) (k n : ℕ) (i : Ident) (r : Reason) (s : TrailingState) (m : TrailingManager)
    → v.is_connected ≡ true
    → v.config.fetch_failure_threshold ≡ pos k
    → is_degraded s.phase ≡ false
    → Counted k n i r s m
    → Counted k (n + 1) i r s (on_ticker_failure v i r m).0
unfolding on_ticker_failure require_ready get_trailing_state
failure_one v k n i r s m on threshold fresh h =
    let same : (on_ticker_failure v i r m).0 ≡ (record_fetch_failure v h.row r m).0 =
      simp (on, h.here, h.same_mode, h.watched) (found-keeps (record_fetch_failure v h.row r m)) in
    subst (λ x. Counted k (n + 1) i r s x) (sym same) (record_one v k n i r s m threshold fresh h)

all_failures :
    (v : Venue) (k : ℕ) (i : Ident) (r : Reason) (s : TrailingState) (m : TrailingManager)
    → v.is_connected ≡ true
    → v.config.fetch_failure_threshold ≡ pos k
    → is_degraded s.phase ≡ false
    → Counted k 0 i r s m
    → (n : ℕ) → Counted k n i r s (after_failures v i r n m)
all_failures v k i r s m on threshold fresh h zero = h
all_failures v k i r s m on threshold fresh h (suc n) =
    subst (λ x. Counted k x i r s (after_failures v i r (suc n) m)) (omega arith)
      (failure_one v k n i r s (after_failures v i r n m) on threshold fresh
        (all_failures v k i r s m on threshold fresh h n))

-- The row of a synthetic, armed state without a failure to its count is as it was after any number
-- of failures of its ticker below the threshold, which is positive, and from the threshold on it is
-- degraded, with the reason of the failures as its last error.
pub on_ticker_failure-IsDegradedFrom :
    (v : Venue) (k n : ℕ) (i : Ident) (r : Reason) (s : TrailingState) (m : TrailingManager)
    → v.is_connected ≡ true
    → v.config.fetch_failure_threshold ≡ pos k
    → 0 < k
    → lookup i m.states ≡ some s
    → s.trailing_id ≡ i
    → s.mode ≡ synthetic
    → s.phase ≡ armed
    → failures_of i m.fetch_failures ≡ 0
    → (t : TrailingState) × (lookup i (after_failures v i r n m).states ≡ some t)
      × IsDegradedFrom k n r s t
on_ticker_failure-IsDegradedFrom v k n i r s m on threshold some_ here same_id made armed_ none_ =
    let h =
      all_failures v k i r s m on threshold (rw armed_ refl)
        (record {
          count = none_;
          row = s;
          here = here;
          is_degraded = record {
            before = λ _. refl;
            after = λ le. absurd (omega (arith, some_, le));
          };
          same_id = same_id;
          same_mode = rw made refl;
          watched = rw armed_ refl;
        })
        n in
    (h.row, h.here, h.is_degraded)
