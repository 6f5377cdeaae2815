-- ===== src/Core/Tcp/Connect/Weightless.antt =====
-- The retries of bytehub_core/src/tcp/middle.rs with a peer of weight zero, which the round robin of
-- bytehub_lb/src/round_robin.rs never gives out.
use bytehub.Prelude.{
  ℕ, zero, suc, ◌*◌, ◌≤◌, ◌<◌, ◌≡◌, refl, ap, sym, subst, ◌∙◌, true, false, none, some, List, ◌∷◌,
  length, get_elem?, get_elem?-lt, arith, Bool-cases, ℕ_discrete, dec_lt, inl, inr, ◌≢◌, ◌==◌, ◌||◌,
  leb,
}
use bytehub.Prelude.Int.{pos, pos_part, neg_part, ◌+ℤ◌, int_laws}
use bytehub.Lb.{Token}
use bytehub.Lb.RoundRobin
use bytehub.Lb.RoundRobin.{RoundRobin}
use bytehub.Lb.RoundRobin.Sums.{sum, get_elem?-unmap}
use bytehub.Lb.RoundRobin.Steady.{IsSteady}
use bytehub.Lb.RoundRobin.Chosen.{next-lt}
use bytehub.Lb.RoundRobin.Fairness.{next-IsSteady}
use bytehub.Lb.RoundRobin.Fairness.Share.{new-fresh, fresh-IsSteady}
use bytehub.Core.Endpoint.{RemoteAddr}
use bytehub.Core.Tcp.Connect.{
  Balance, Env, State, has, insert, attempt, report, note, give_up, is_exhausted, go_on,
  select_addr, start, round, rounds, try_connect_with_fallback,
}
use bytehub.Core.Tcp.Connect.Tried.{distinct-le}
use bytehub.Core.Tcp.Connect.Turn.{
  round_robin_balance, bal, IsTurn, report-note, next-IsTurn, first-IsTurn,
}
use bytehub.Core.Tcp.Connect.Rounds.{failed, go_on-again}

at_least : (c s : ℕ) → 0 < c → s ≤ c * s
at_least c s h = grind arith

has_tail : (i z : ℕ) (us : List ℕ) → i ≢ z → has i (z ∷ us) ≡ true → has i us ≡ true
unfolding has
has_tail i z us ne h = ground arith

open_while : (n l : ℕ) → l < n → (n == 0 || leb n l) ≡ false
open_while n l h = ground arith

module _ {S : Type 0} (b : Balance S) (env : Env)
    (down : (k : ℕ) (a : RemoteAddr) → env.dial k a ≡ none) where
  attempt_down : (k : ℕ) (st : State S) → st.pool ≡ none → attempt b env k st ≡ (none, none)
  unfolding attempt
  attempt_down k st cold =
      rw (cold, attempt) (ap (λ s. (s, none)) (down k (select_addr env st.token)))

  -- Without a pool, where no dial succeeds, a round fails.
  fails :
      (k : ℕ) (st : State S)
      → st.pool ≡ none
      → round b env k st ≡ go_on b env k (failed b env k st none st.fallback)
  unfolding round note report
  fails k st cold =
      let tried = attempt_down k st cold in
      rw (ap (λ a. a.0) tried, round)
        (ap (λ a. go_on b env k (give_up b env k (record st { pool = a.1 }))) tried)

module _ (ws : List ℕ) (env : Env) (positive : 0 < sum ws) (small : length ws * sum ws ≤ 32767)
    (z : ℕ) (light : get_elem? ws z ≡ some 0)
    (down : (k : ℕ) (a : RemoteAddr) → env.dial k a ≡ none) where
  -- A peer of weight zero has had no turn.
  never_given : {c : ℕ → ℕ} {m : ℕ} {rr : RoundRobin} → IsSteady ws c m rr → c z ≡ 0
  never_given {c} {m} {rr} v =
      let (p, at, e) =
        get_elem?-unmap (λ (p : RoundRobin.Node). p.weight) rr.nodes z
          (subst (λ l. get_elem? l z ≡ some 0) (sym v.weights) light) in
      let o = subst (λ n. p.cw +ℤ pos (c z * sum ws) ≡ pos (m * n)) e (v.owed z p at) in
      let l = v.lower z p at in
      elim (dec_lt 0 (c z)) [
        | yes some_turn ↦
            absurd
              (omega (int_laws, ap pos_part o, ap neg_part o, at_least (c z) (sum ws) some_turn, l))
        | no never ↦ omega arith
      ]

  -- Some peer is left to try.
  turns_left :
      {c : ℕ → ℕ} {m : ℕ} {st : State RoundRobin} {j : Token}
      → IsTurn ws env positive small c m st j
      → length (insert j st.tried) < length ws
  turns_left {c} {st = st} {j} t =
      let untried : has z (insert j st.tried) ≡ false =
        elim (Bool-cases (has z (insert j st.tried))) [
          | inl e ↦ absurd (omega (arith, t.given_out z e, never_given t.steady))
          | inr e ↦ e
        ] in
      distinct-le (length ws) (z ∷ insert j st.tried) (untried, t.distinct)
        (λ i h. elim (ℕ_discrete i z) [
          | yes e ↦ rw e (get_elem?-lt ws z light)
          | no ne ↦ t.within i (has_tail i z (insert j st.tried) ne h)
        ])

  still_open :
      {c : ℕ → ℕ} {m : ℕ} {st : State RoundRobin} {j : Token} (k : ℕ)
      → IsTurn ws env positive small c m st j
      → is_exhausted
          (bal ws env positive small)
          env
          (failed (bal ws env positive small) env k st none st.fallback)
        ≡ false
  unfolding is_exhausted
  still_open {st = st} k t =
      let noted = (report-note ws env positive small k t).1 in
      let left = turns_left t in
      open_while (length ws) (length (note (bal ws env positive small) env st)) (rw noted left)

  -- Each round fails and goes on, whatever the number of the rounds.
  never_ends :
      (fuel k : ℕ) {c : ℕ → ℕ} {m : ℕ} (st : State RoundRobin) (j : Token)
      → st.pool ≡ none
      → IsTurn ws env positive small c m st j
      → rounds (bal ws env positive small) env fuel k st ≡ none
  unfolding rounds
  never_ends zero k st j cold t = refl
  never_ends (suc fuel) k st j cold t =
      let (u, turn) = next-IsTurn ws env positive small k none st.fallback t in
      let again =
        fails (bal ws env positive small) env down k st cold
        ∙ go_on-again (bal ws env positive small) env k
            (failed (bal ws env positive small) env k st none st.fallback) (still_open k t) in
      rw (again, rounds) (never_ends fuel (suc k) _ u refl turn)

-- Without health checks, with two peers or more, one of them of weight zero, a positive sum of the
-- weights, which times the number of peers is at most 32767, without a pool, with every dial failing,
-- and for a client whose address is known: the retries over a new round robin never end, since the peer
-- of weight zero is never tried.
pub try_connect-weightless :
    (ws : List ℕ) (rr : RoundRobin) (env : Env) (z fuel : ℕ)
    → RoundRobin.new ws none ≡ some rr
    → env.client_known ≡ true
    → 1 < length ws
    → get_elem? ws z ≡ some 0
    → 0 < sum ws
    → length ws * sum ws ≤ 32767
    → ((k : ℕ) (a : RemoteAddr) → env.dial k a ≡ none)
    → try_connect_with_fallback (round_robin_balance (length ws)) env fuel rr none ≡ none
unfolding try_connect_with_fallback start
try_connect-weightless ws rr env z fuel made known many light positive small down =
    let v =
      subst (IsSteady ws (λ i. 0) 0) (sym (new-fresh ws rr many made))
        (fresh-IsSteady ws many positive) in
    let (u, rr', e, steady) = next-IsSteady ws positive small v 0 in
    rw (known, e)
      (never_ends ws env positive small z light down fuel 0 _ u refl (
        first-IsTurn ws env positive small rr' u none (next-lt ws positive small v 0 u rr' e)
          steady))
