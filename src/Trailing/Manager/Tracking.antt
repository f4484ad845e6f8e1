-- ===== src/Trailing/Manager/Tracking.antt =====
-- Steps of the trailing manager on the row of one state: what the row is afterwards, whether the step
-- returns or raises, and that no other row changes.
use unified_trading_executio.Base.{
  ◌≡◌, refl, sym, ap, ◌∙◌, subst, Bool, true, false, some, Error, Result, ok, err, raise_if,
  if◌then◌else◌, lookup, insert, lookup-insert, ℕ_key, ◌==◌, pure, nat_eqb_iff, proceed,
}
use unified_trading_executio.Types.{Ident}
use unified_trading_executio.Trailing.{TrailingState}
use unified_trading_executio.Trailing.Manager.{
  TrailingManager, Step, ◌>>=◌, ◌>>◌, give, upsert_trailing_state,
}

-- The step leaves what is seen of the manager as it is, whether it returns or raises.
pub record Leaves {V : Type 0} (view : TrailingManager → V) {A : Type 0} (step : Step A)
    : Type 0 where
  pub same : (m : TrailingManager) → view (step m).0 ≡ view m

-- The step leaves all rows as they are.
abbrev pub IsQuiet : {A : Type 0} → Step A → Type 0
IsQuiet = Leaves (λ m. m.states)

module _ (R : TrailingState → TrailingState → Type 0) where
  -- After a run from `m` with the row `s`: the row, which is related to `s` and is what is returned,
  -- and the other rows.
  pub record Tracked (s : TrailingState) (m : TrailingManager)
      (run : TrailingManager × Result TrailingState) : Type 0 where
    pub after : TrailingState
    pub held : lookup s.trailing_id run.0.states ≡ some after
    pub same_id : after.trailing_id ≡ s.trailing_id
    pub related : R s after
    pub others :
        (k : Ident) → (s.trailing_id == k) ≡ false → lookup k run.0.states ≡ lookup k m.states
    pub returned : (t : TrailingState) → run.1 ≡ ok t → after ≡ t

  pub record IsTracking (s : TrailingState) (step : Step TrailingState) : Type 0 where
    pub run : (m : TrailingManager) → lookup s.trailing_id m.states ≡ some s → Tracked s m (step m)

  pub give-IsTracking : (s : TrailingState) → R s s → IsTracking s (give s)
  give-IsTracking s r = record {
    run = λ m h. record {
      after = s;
      held = h;
      same_id = refl;
      related = r;
      others = λ k e. refl;
      returned = λ t e. cc;
    };
  }

  -- A check that raises or goes on.
  pub check-IsTracking :
      (s : TrailingState) (b : Bool) (e : Error) (rest : Step TrailingState)
      → R s s
      → (b ≡ false → IsTracking s rest)
      → IsTracking s (pure (raise_if b e) >> rest)
  check-IsTracking s false e rest r h = record { run = (h refl).run }
  check-IsTracking s true e rest r h = record {
    run = λ m row. record {
      after = s;
      held = row;
      same_id = refl;
      related = r;
      others = λ k e. refl;
      returned = λ t e. cc;
    };
  }

  pub if-IsTracking :
      (s : TrailingState) (b : Bool) {x y : Step TrailingState}
      → (b ≡ true → IsTracking s x)
      → (b ≡ false → IsTracking s y)
      → IsTracking s (if b then x else y)
  if-IsTracking s true p q = p refl
  if-IsTracking s false p q = q refl

  quiet_proceed :
      {A : Type 0} (s : TrailingState) (m : TrailingManager) (run : TrailingManager × Result A)
      (rest : A → Step TrailingState)
      → R s s
      → lookup s.trailing_id m.states ≡ some s
      → run.0.states ≡ m.states
      → ((a : A) → run.1 ≡ ok a → IsTracking s (rest a))
      → Tracked s m (proceed run rest)
  quiet_proceed s m (n, err e) rest r row same h = record {
    after = s;
    held = ap (lookup s.trailing_id) same ∙ row;
    same_id = refl;
    related = r;
    others = λ k _. ap (lookup k) same;
    returned = λ t e. cc;
  }
  quiet_proceed s m (n, ok a) rest r row same h =
      let next = (h a refl).run n (ap (lookup s.trailing_id) same ∙ row) in
      record {
        after = next.after;
        held = next.held;
        same_id = next.same_id;
        related = next.related;
        others = λ k other. next.others k other ∙ ap (lookup k) same;
        returned = next.returned;
      }

  pub pure-IsTracking :
      {A : Type 0} (s : TrailingState) (r : Result A) (rest : A → Step TrailingState)
      → R s s
      → ((a : A) → r ≡ ok a → IsTracking s (rest a))
      → IsTracking s (pure r >>= rest)
  pure-IsTracking s r rest here h = record {
    run = λ m row. quiet_proceed s m (m, r) rest here row refl h;
  }

  pub quiet-IsTracking :
      {A : Type 0} (s : TrailingState) (step : Step A) (rest : A → Step TrailingState)
      → R s s
      → IsQuiet step
      → ((a : A) → IsTracking s (rest a))
      → IsTracking s (step >>= rest)
  quiet-IsTracking s step rest r quiet h = record {
    run = λ m row. quiet_proceed s m (step m) rest r row (quiet.same m) (λ a _. h a);
  }

  -- The row is written, and the rest goes on from there.
  store_proceed :
      (s t : TrailingState) (rest : Step TrailingState)
      → t.trailing_id ≡ s.trailing_id
      → ((u : TrailingState) → R t u → R s u)
      → IsTracking t rest
      → (m : TrailingManager) → Tracked s m ((upsert_trailing_state t >> rest) m)
  unfolding upsert_trailing_state
  store_proceed s t rest same extend h m =
      let n = record m { states = insert t.trailing_id t m.states } in
      let now = h.run n (
        rw (
          lookup-insert t.trailing_id t.trailing_id t m.states,
          (nat_eqb_iff t.trailing_id t.trailing_id).1 refl,
        )) in
      record {
        after = now.after;
        held = subst (λ i. lookup i (rest n).0.states ≡ some now.after) same now.held;
        same_id = now.same_id ∙ same;
        related = extend now.after now.related;
        others = λ k other.
            let apart : (t.trailing_id == k) ≡ false = rw same other in
            now.others k apart ∙ rw (lookup-insert t.trailing_id k t m.states, apart);
        returned = now.returned;
      }

  pub store-IsTracking :
      (s t : TrailingState) (rest : Step TrailingState)
      → t.trailing_id ≡ s.trailing_id
      → ((u : TrailingState) → R t u → R s u)
      → IsTracking t rest
      → IsTracking s (upsert_trailing_state t >> rest)
  store-IsTracking s t rest same extend h = record {
    run = λ m row. store_proceed s t rest same extend h m;
  }

  bind_proceed :
      (s : TrailingState) (m : TrailingManager) (run : TrailingManager × Result TrailingState)
      (rest : TrailingState → Step TrailingState)
      → ((t u : TrailingState) → R s t → R t u → R s u)
      → Tracked s m run
      → ((t : TrailingState) → R s t → IsTracking t (rest t))
      → Tracked s m (proceed run rest)
  bind_proceed s m (n, err e) rest trans h k = record {
    after = h.after;
    held = h.held;
    same_id = h.same_id;
    related = h.related;
    others = h.others;
    returned = λ t e. cc;
  }
  bind_proceed s m (n, ok t) rest trans h k =
      let is_t : h.after ≡ t = h.returned t refl in
      let id : t.trailing_id ≡ s.trailing_id = rw (← is_t) h.same_id in
      let r : R s t = subst (R s) is_t h.related in
      let row : lookup t.trailing_id n.states ≡ some t =
        subst (λ i. lookup i n.states ≡ some t) (sym id) (h.held ∙ ap some is_t) in
      let next = (k t r).run n row in
      record {
        after = next.after;
        held = subst (λ i. lookup i (rest t n).0.states ≡ some next.after) id next.held;
        same_id = next.same_id ∙ id;
        related = trans t next.after r next.related;
        others = λ j other. next.others j (rw id other) ∙ h.others j other;
        returned = next.returned;
      }

  pub bind-IsTracking :
      (s : TrailingState) (step : Step TrailingState) (rest : TrailingState → Step TrailingState)
      → ((t u : TrailingState) → R s t → R t u → R s u)
      → IsTracking s step
      → ((t : TrailingState) → R s t → IsTracking t (rest t))
      → IsTracking s (step >>= rest)
  bind-IsTracking s step rest trans h k = record {
    run = λ m row. bind_proceed s m (step m) rest trans (h.run m row) k;
  }
