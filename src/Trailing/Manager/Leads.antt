-- ===== src/Trailing/Manager/Leads.antt =====
-- What a call of the trailing manager does to the table of its rows.
use unified_trading_executio.Base.{
  ◌≡◌, refl, sym, ap, ◌∙◌, subst, true, Option, none, some, Result, ok, err, Bool-cases,
  Option-cases, inl, inr, lookup, ℕ_key, ◌==◌, nat_eqb_iff, proceed,
}
use unified_trading_executio.Types.{Ident, instrument_key}
use unified_trading_executio.Trailing.{TrailingState}
use unified_trading_executio.Trailing.Manager.{
  Venue, TrailingManager, Step, ◌>>=◌, ◌>>◌, require_ready, get_trailing_state, is_watched,
  is_synthetic, when_watched,
}
use unified_trading_executio.Trailing.Manager.Tracking.{Tracked, IsTracking}
use unified_trading_executio.Trailing.Manager.Lifecycle.{Evolves, Evolves-refl, Evolves-trans}

-- Every row is filed under the id of its state.
abbrev pub IsFiled : TrailingManager → Type 0
IsFiled m = (k : Ident) (s : TrailingState) → lookup k m.states ≡ some s → s.trailing_id ≡ k

-- From `m` to `n` every row evolves, no row appears, and the rows stay filed.
pub record Leads (m n : TrailingManager) : Type 0 where
  pub rows :
      (k : Ident) (s : TrailingState)
      → lookup k m.states ≡ some s
      → (t : TrailingState) × (lookup k n.states ≡ some t) × Evolves s t
  pub absent : (k : Ident) → lookup k m.states ≡ none → lookup k n.states ≡ none

pub Leads-refl : (m n : TrailingManager) → n.states ≡ m.states → Leads m n
Leads-refl m n same = record {
  rows = λ k s row. (s, ap (lookup k) same ∙ row, Evolves-refl s);
  absent = λ k no_row. ap (lookup k) same ∙ no_row;
}

pub Leads-trans : (m n o : TrailingManager) → Leads m n → Leads n o → Leads m o
Leads-trans m n o h k = record {
  rows = λ i s row.
      let (t, row', e) = h.rows i s row in
      let (u, row'', f) = k.rows i t row' in (u, row'', Evolves-trans s t u e f);
  absent = λ i no_row. k.absent i (h.absent i no_row);
}

-- A step on one row leads on.
pub Tracked-Leads :
    (R : TrailingState → TrailingState → Type 0) (s : TrailingState) (m : TrailingManager)
    (run : TrailingManager × Result TrailingState)
    → ((t : TrailingState) → R s t → Evolves s t)
    → lookup s.trailing_id m.states ≡ some s
    → Tracked R s m run
    → Leads m run.0
Tracked-Leads R s m run weaker row h = record {
  rows = λ k u at_k. elim (Bool-cases (s.trailing_id == k)) [
    | inl same ↦
        let is_k : s.trailing_id ≡ k = (nat_eqb_iff s.trailing_id k).0 same in
        let is_u : s ≡ u = cc (subst (λ i. lookup i m.states ≡ some s) is_k row, at_k) in
        (
          h.after,
          subst (λ i. lookup i run.0.states ≡ some h.after) is_k h.held,
          subst (λ x. Evolves x h.after) is_u (weaker h.after h.related),
        )
    | inr other ↦ (u, h.others k other ∙ at_k, Evolves-refl u)
  ];
  absent = λ k no_row. elim (Bool-cases (s.trailing_id == k)) [
    | inl same ↦
        let is_k : s.trailing_id ≡ k = (nat_eqb_iff s.trailing_id k).0 same in
        absurd (cc (subst (λ i. lookup i m.states ≡ some s) is_k row, no_row))
    | inr other ↦ h.others k other ∙ no_row
  ];
}

pub Leads-IsFiled : (m n : TrailingManager) → Leads m n → IsFiled m → IsFiled n
Leads-IsFiled m n h filed k t row = elim (Option-cases (lookup k m.states)) [
  | inl no_row ↦ absurd (cc (h.absent k no_row, row))
  | inr (s, at_k) ↦
      let (u, row', evolves) = h.rows k s at_k in
      let same : u ≡ t = cc (row', row) in
      subst (λ x. x.trailing_id ≡ k) same (evolves.keeps.same_id ∙ filed k s at_k)
]

-- What follows a step, and leaves the manager as it is.
pub proceed-still :
    {A B : Type 0} (run : TrailingManager × Result A) (rest : A → Step B)
    → ((a : A) (n : TrailingManager) → (rest a n).0 ≡ n)
    → (proceed run rest).0 ≡ run.0
proceed-still (n, ok a) rest h = h a n
proceed-still (n, err e) rest h = refl

-- A step on a row that is filed.
pub step-Leads :
    {A : Type 0} (R : TrailingState → TrailingState → Type 0) (i : Ident) (s : TrailingState)
    (m : TrailingManager) (step : Step TrailingState) (rest : TrailingState → Step A)
    → ((t : TrailingState) → R s t → Evolves s t)
    → ((a : TrailingState) (n : TrailingManager) → (rest a n).0 ≡ n)
    → IsFiled m
    → lookup i m.states ≡ some s
    → IsTracking R s step
    → Leads m ((step >>= rest) m).0
step-Leads R i s m step rest weaker still filed row h =
    let here : lookup s.trailing_id m.states ≡ some s =
      subst (λ k. lookup k m.states ≡ some s) (sym (filed i s row)) row in
    subst (Leads m) (sym (proceed-still (step m) rest still))
      (Tracked-Leads R s m (step m) weaker here (h.run m here))

-- The entry of every method.
pub entry-Leads :
    {A : Type 0} (v : Venue) (i : Ident) (m : TrailingManager) (f : Option TrailingState → Step A)
    → ((o : Option TrailingState) → lookup i m.states ≡ o → Leads m (f o m).0)
    → Leads m ((require_ready v >> (get_trailing_state i >>= f)) m).0
unfolding require_ready get_trailing_state
entry-Leads v i m f h = elim (Bool-cases v.is_connected) [
  | inl up ↦ rw up (h (lookup i m.states) refl)
  | inr down ↦ rw down (Leads-refl m m refl)
]

pub watched-Leads :
    (i : Ident) (m : TrailingManager) (f : TrailingState → Step (Option TrailingState))
    → ((s : TrailingState)
        → lookup i m.states ≡ some s
        → is_watched s.phase ≡ true
        → Leads m (f s m).0)
    → (o : Option TrailingState) → lookup i m.states ≡ o
    → Leads m (when_watched f o m).0
watched-Leads i m f h none row = Leads-refl m m refl
watched-Leads i m f h (some s) row = elim (Bool-cases (is_synthetic s.mode)) [
  | inl made ↦ elim (Bool-cases (is_watched s.phase)) [
    | inl w ↦ rw (made, w) (h s row w)
    | inr idle ↦ rw (made, idle) (Leads-refl m m refl)
  ]
  | inr other ↦ rw other (Leads-refl m m refl)
]
