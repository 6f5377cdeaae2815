-- ===== src/Core/Tcp/Connect/Turn.antt =====
-- One round of the retries of bytehub_core/src/tcp/middle.rs with the round robin of
-- bytehub_lb/src/round_robin.rs: what has been tried is what has been given out.
use bytehub.Prelude.{
  ℕ, suc, ◌+◌, ◌*◌, ◌≤◌, ◌<◌, ◌≡◌, refl, ap, sym, subst, ◌∙◌, inl, inr, true, Option, none, some,
  List, [], length, arith, ℕ_discrete,
}
use bytehub.Lb.{Token}
use bytehub.Lb.RoundRobin
use bytehub.Lb.RoundRobin.{RoundRobin}
use bytehub.Lb.RoundRobin.Sums.{sum}
use bytehub.Lb.RoundRobin.Steady.{hit, IsSteady, on_failure_off}
use bytehub.Lb.RoundRobin.Chosen.{next-lt}
use bytehub.Lb.RoundRobin.Fairness.{next-IsSteady}
use bytehub.Core.Tcp.Pool.{RemotePool}
use bytehub.Core.Tcp.Connect.{Balance, Env, Fallback, State, has, insert, report, note}
use bytehub.Core.Tcp.Connect.Tried.{
  has-insert_self, has-insert, has-insert_cases, IsDistinct, insert-IsDistinct,
}
use bytehub.Core.Tcp.Connect.Rounds.{failed, next_state}

-- The round robin as the loop of retries uses it.
abbrev pub round_robin_balance : ℕ → Balance RoundRobin
round_robin_balance total = record {
  next = λ now rr. RoundRobin.next now rr;
  on_failure = λ now rr t. RoundRobin.on_failure now rr t;
  total = total;
  max_latency = none;
}

-- `hit` counts exactly the token.
hit_pos : (i u : ℕ) → 0 < hit i (some u) → i ≡ u
hit_pos i u h = elim (ℕ_discrete i u) [ yes e ↦ e | no ne ↦ absurd (ground arith) ]

hit_self : (u : ℕ) → hit u (some u) ≡ 1
hit_self u = ground arith

module _ (ws : List ℕ) (env : Env) (positive : 0 < sum ws)
    (small : length ws * sum ws ≤ 32767) where
  abbrev pub bal : Balance RoundRobin
  bal = round_robin_balance (length ws)

  -- A round after `m` calls of the balancer, of which `c i` gave out peer `i`.
  pub record IsTurn (c : ℕ → ℕ) (m : ℕ) (st : State RoundRobin) (j : Token) : Type 0 where
    pub at : st.token ≡ some j
    pub steady : IsSteady ws c m st.balancer
    pub covered : (i : ℕ) → 0 < c i → has i (insert j st.tried) ≡ true
    pub given_out : (i : ℕ) → has i (insert j st.tried) ≡ true → 0 < c i
    pub within : (i : ℕ) → has i (insert j st.tried) ≡ true → i < length ws
    pub distinct : IsDistinct (insert j st.tried)

  pub report-note :
      {c : ℕ → ℕ} {m : ℕ} {st : State RoundRobin} {j : Token} (k : ℕ)
      → IsTurn c m st j
      → (report bal env k st ≡ st.balancer) × (note bal env st ≡ insert j st.tried)
  unfolding report note
  report-note {st = st} {j} k t =
      (rw (t.at, report) (on_failure_off k st.balancer j t.steady.off), rw (t.at, note) refl)

  -- After one more token, the set still has exactly the tokens that were given out.
  still_covered :
      {c : ℕ → ℕ} {m : ℕ} {st : State RoundRobin} {j : Token}
      → IsTurn c m st j
      → (u i : ℕ) → 0 < c i + hit i (some u)
      → has i (insert u (insert j st.tried)) ≡ true
  still_covered {c} {st = st} {j} t u i once = elim (ℕ_discrete i u) [
    | yes e ↦ rw e (has-insert_self u (insert j st.tried))
    | no ne ↦
        has-insert i u (insert j st.tried)
          (t.covered i (let none_now : hit i (some u) ≡ 0 = ground arith in omega (arith, once)))
  ]

  still_given :
      {c : ℕ → ℕ} {m : ℕ} {st : State RoundRobin} {j : Token}
      → IsTurn c m st j
      → (u i : ℕ) → has i (insert u (insert j st.tried)) ≡ true
      → 0 < c i + hit i (some u)
  still_given {st = st} {j} t u i h = elim (has-insert_cases i u (insert j st.tried) h) [
    | inl e ↦ rw e (omega (arith, hit_self u))
    | inr before ↦ omega (arith, t.given_out i before)
  ]

  pub next-IsTurn :
      {c : ℕ → ℕ} {m : ℕ} {st : State RoundRobin} {j : Token} (k : ℕ) (pool : Option RemotePool)
      (fallback : Option Fallback)
      → IsTurn c m st j
      → (u : Token) × IsTurn
          (λ i. c i + hit i (some u))
          (suc m)
          (next_state bal env k (failed bal env k st pool fallback))
          u
  next-IsTurn {c} {m} {st} {j} k pool fallback t =
      let (u, rr', e, steady') = next-IsSteady ws positive small t.steady k in
      let (same, noted) = report-note k t in
      let given : RoundRobin.next k (report bal env k st) ≡ (some u, rr') =
        ap (λ rr. RoundRobin.next k rr) same ∙ e in
      (
        u,
        record {
          at = ap (λ p. p.0) given;
          steady =
              subst (λ rr. IsSteady ws (λ i. c i + hit i (some u)) (suc m) rr)
                (sym (ap (λ p. p.1) given)) steady';
          covered = λ i once.
              subst (λ l. has i (insert u l) ≡ true) (sym noted) (still_covered t u i once);
          given_out = λ i h. still_given t u i (subst (λ l. has i (insert u l) ≡ true) noted h);
          within = λ i h.
              elim (has-insert_cases i u (insert j st.tried)
                (subst (λ l. has i (insert u l) ≡ true) noted h)) [
                  | inl same ↦ rw same (next-lt ws positive small t.steady k u rr' e)
                  | inr before ↦ t.within i before
                ];
          distinct =
              subst (λ l. IsDistinct (insert u l)) (sym noted)
                (insert-IsDistinct u (insert j st.tried) t.distinct);
        },
      )

  -- The first round of a new balancer.
  pub first-IsTurn :
      (rr : RoundRobin) (u : Token) (pool : Option RemotePool)
      → u < length ws
      → IsSteady ws (λ i. 0 + hit i (some u)) 1 rr
      → IsTurn
          (λ i. 0 + hit i (some u))
          1
          (record { token = some u; tried = []; fallback = none; balancer = rr; pool = pool })
          u
  unfolding insert has
  first-IsTurn rr u pool lt v = record {
    at = refl;
    steady = v;
    covered = λ i once. let e = hit_pos i u (omega (arith, once)) in ground (arith, e);
    given_out = λ i h. ground arith;
    within = λ i h. let e : i ≡ u = ground arith in rw e lt;
    distinct = (refl, tt);
  }
