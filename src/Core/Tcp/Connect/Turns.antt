-- ===== src/Core/Tcp/Connect/Turns.antt =====
-- The retries of bytehub_core/src/tcp/middle.rs with the round robin of bytehub_lb/src/round_robin.rs
-- without health checks, which may give out a peer again before the others have had their turn.
use bytehub.Prelude.{
  ℕ, zero, suc, ◌+◌, ◌*◌, ◌≤◌, ◌<◌, ◌≡◌, refl, sym, subst, ◌∙◌, inl, inr, true, false, Option, none,
  some, List, [], ◌∷◌, length, get_elem?, get_elem?-some, arith, Bool-cases, dec_lt,
}
use bytehub.Lb.{Token}
use bytehub.Lb.RoundRobin
use bytehub.Lb.RoundRobin.{RoundRobin}
use bytehub.Lb.RoundRobin.Sums.{sum}
use bytehub.Lb.RoundRobin.Steady.{IsSteady}
use bytehub.Lb.RoundRobin.Chosen.{next-lt}
use bytehub.Lb.RoundRobin.Fairness.{next-IsSteady}
use bytehub.Lb.RoundRobin.Fairness.Share.{steady_full, new-fresh, fresh-IsSteady}
use bytehub.Core.Tcp.Pool.{RemotePool}
use bytehub.Core.Tcp.Connect.{
  Env, Fallback, State, Result, insert, is_exhausted, fall_back, announce, start, rounds,
  try_connect_with_fallback,
}
use bytehub.Core.Tcp.Connect.Tried.{covers-le}
use bytehub.Core.Tcp.Connect.Rounds.{
  failed, IsRound, round-IsRound, go_on-stop, go_on-again, next_state,
}
use bytehub.Core.Tcp.Connect.Turn.{
  round_robin_balance, IsTurn, report-note, next-IsTurn, first-IsTurn,
}

module _ (ws : List ℕ) (env : Env) (positive : 0 < sum ws) (small : length ws * sum ws ≤ 32767)
    (heavy : (i w : ℕ) → get_elem? ws i ≡ some w → 0 < w) where
  exhausted :
      (st : State RoundRobin)
      → length ws ≤ length st.tried
      → is_exhausted (round_robin_balance (length ws)) env st ≡ true
  unfolding is_exhausted
  exhausted st h = ground arith

  -- Once the calls are as many as the sum of the weights, every peer has been tried.
  all_tried :
      {c : ℕ → ℕ} {m : ℕ} {st : State RoundRobin} {j : Token}
      → IsTurn ws env positive small c m st j
      → m ≡ sum ws
      → length ws ≤ length (insert j st.tried)
  all_tried {st = st} {j} t full = covers-le (length ws) (insert j st.tried) (λ i lt.
      let (w, here) = get_elem?-some ws i lt in
      t.covered i (
        subst (λ (n : ℕ). 0 < n) (sym (steady_full ws positive t.steady full i w here))
          (heavy i w here)))

  turns_left :
      {c : ℕ → ℕ} {m : ℕ} {st : State RoundRobin} {j : Token} (k : ℕ) (pool : Option RemotePool)
      (fallback : Option Fallback)
      → IsTurn ws env positive small c m st j
      → m ≤ sum ws
      → is_exhausted
          (round_robin_balance (length ws))
          env
          (failed (round_robin_balance (length ws)) env k st pool fallback)
        ≡ false
      → m < sum ws
  turns_left {m = m} {st} k pool fallback t more open_yet = elim (dec_lt m (sum ws)) [
    | yes less ↦ less
    | no over ↦
        let noted = (report-note ws env positive small k t).1 in
        let long = all_tried t (omega arith) in
        let done =
          exhausted (failed (round_robin_balance (length ws)) env k st pool fallback)
            (subst (λ l. length ws ≤ length l) (sym noted) long) in
        absurd (cc (done, open_yet))
  ]

  loop_ends :
      (fuel k : ℕ) {c : ℕ → ℕ} {m : ℕ} (st : State RoundRobin) (j : Token)
      → IsTurn ws env positive small c m st j
      → m + fuel ≡ suc (sum ws)
      → m ≤ sum ws
      → (r : Result) × (st' : State RoundRobin) × (rounds
            (round_robin_balance (length ws))
            env
            fuel
            k
            st
          ≡ some (r, st'))
  unfolding rounds IsRound
  loop_ends zero k st j t spare more = absurd (omega arith)
  loop_ends (suc fuel) k st j t spare more =
      elim (round-IsRound (round_robin_balance (length ws)) env k st) [
        | inl (s, st', e, got, fast) ↦
            (announce (round_robin_balance (length ws)) env k s st.token, st', rw (e, rounds) refl)
        | inr (pool, fallback, e, from) ↦
            let st1 = failed (round_robin_balance (length ws)) env k st pool fallback in
            elim (Bool-cases (is_exhausted (round_robin_balance (length ws)) env st1)) [
              | inl over ↦ (
                fall_back (round_robin_balance (length ws)) env st1,
                st1,
                rw (e ∙ go_on-stop (round_robin_balance (length ws)) env k st1 over, rounds) refl,
              )
              | inr open_yet ↦
                  let (u, turn) = next-IsTurn ws env positive small k pool fallback t in
                  rw (e ∙ go_on-again (round_robin_balance (length ws)) env k st1 open_yet, rounds)
                    (loop_ends fuel (suc k) (next_state (round_robin_balance (length ws)) env k st1)
                      u turn (omega arith) (turns_left k pool fallback t more open_yet))
            ]
      ]

sum_pos : (ws : List ℕ) → 1 < length ws → ((i w : ℕ) → get_elem? ws i ≡ some w → 0 < w) → 0 < sum ws
sum_pos [] many heavy = absurd (omega arith)
sum_pos (w ∷ ws) many heavy = omega (arith, heavy 0 w refl)

-- Without health checks, with two peers or more, positive weights, and a sum of the weights times the
-- number of peers of at most 32767: the retries over a new round robin end after as many rounds as the
-- sum of the weights, whatever the dials and the reads do.
pub try_connect-round_robin :
    (ws : List ℕ) (rr : RoundRobin) (env : Env) (pool : Option RemotePool)
    → RoundRobin.new ws none ≡ some rr
    → 1 < length ws
    → ((i w : ℕ) → get_elem? ws i ≡ some w → 0 < w)
    → length ws * sum ws ≤ 32767
    → (r : Result) × (st : State RoundRobin) × (try_connect_with_fallback
          (round_robin_balance (length ws))
          env
          (sum ws)
          rr
          pool
        ≡ some (r, st))
unfolding try_connect_with_fallback start
try_connect-round_robin ws rr env pool made many heavy small =
    let positive = sum_pos ws many heavy in
    let v =
      subst (IsSteady ws (λ i. 0) 0) (sym (new-fresh ws rr many made))
        (fresh-IsSteady ws many positive) in
    let (u, rr', e, steady) = next-IsSteady ws positive small v 0 in
    elim (Bool-cases env.client_known) [
      | inr gone ↦ (
        Result.error,
        record { token = none; tried = []; fallback = none; balancer = rr; pool = pool },
        rw gone refl,
      )
      | inl known ↦
          rw (known, e)
            (loop_ends ws env positive small heavy (sum ws) 0
              (record { token = some u; tried = []; fallback = none; balancer = rr'; pool = pool })
              u
              (first-IsTurn ws env positive small rr' u pool (next-lt ws positive small v 0 u rr' e)
                steady)
              (omega arith) (omega arith))
    ]
