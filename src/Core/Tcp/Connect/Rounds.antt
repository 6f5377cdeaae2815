-- ===== src/Core/Tcp/Connect/Rounds.antt =====
-- When the retries of bytehub_core/src/tcp/middle.rs end, and with what.
use bytehub.Prelude.{
  ℕ, suc, ◌≡◌, refl, ◌⊎◌, inl, inr, true, false, Option, some, Bool-cases, Option-cases,
}
use bytehub.Core.Tcp.Pool.{Stream, RemotePool}
use bytehub.Core.Tcp.Connect.{
  Balance, Env, Fallback, State, Outcome, attempt, report, note, give_up, remember, is_exhausted,
  fall_back, go_on, is_slow, announce, round,
}

module _ {S : Type 0} (b : Balance S) (env : Env) where
  -- The states with which a round can go on: those after the report, with any pool and fallback.
  abbrev pub failed : ℕ → State S → Option RemotePool → Option Fallback → State S
  failed k st pool fallback = record (give_up b env k st) { pool = pool; fallback = fallback }

  -- What is kept for the case that nothing better comes: as before, or the slow connection of this round.
  abbrev pub IsRemembered : ℕ → State S → Option Fallback → Type 0
  IsRemembered k st fallback =
      (fallback ≡ st.fallback)
      ⊎ ((s : Stream) × ((attempt b env k st).0 ≡ some s)
          × (is_slow b env (env.elapsed_ms k) ≡ true)
          × (fallback ≡ remember b env s (env.elapsed_ms k) st))

  -- A round gives out a connection that is fast enough, or goes on from a failure.
  unfoldable pub IsRound : ℕ → State S → Outcome S → Type 0
  IsRound k st o =
      ((s : Stream) × (st' : State S) × (o ≡ Outcome.stop (announce b env k s st.token) st')
        × ((attempt b env k st).0 ≡ some s)
        × (is_slow b env (env.elapsed_ms k) ≡ false))
      ⊎ ((pool : Option RemotePool) × (fallback : Option Fallback) × (o
            ≡ go_on b env k (failed k st pool fallback))
          × IsRemembered k st fallback)

  pub round-IsRound : (k : ℕ) (st : State S) → IsRound k st (round b env k st)
  unfolding round IsRound report note remember
  round-IsRound k st = elim (Option-cases (attempt b env k st).0) [
    | inl e ↦ inr ((attempt b env k st).1, st.fallback, rw (e, round) refl, inl refl)
    | inr (s, e) ↦ elim (Bool-cases (is_slow b env (env.elapsed_ms k))) [
      | inl slow ↦ inr (
        (attempt b env k st).1,
        remember b env s (env.elapsed_ms k) st,
        rw (e, round, slow) refl,
        inr (s, e, slow, refl),
      )
      | inr fast ↦
          inl (s, record st { pool = (attempt b env k st).1 }, rw (e, round, fast) refl, e, fast)
    ]
  ]

module _ {S : Type 0} (b : Balance S) (env : Env) (k : ℕ) (st : State S) where
  pub go_on-stop :
      is_exhausted b env st ≡ true → go_on b env k st ≡ Outcome.stop (fall_back b env st) st
  unfolding go_on
  go_on-stop e = rw (e, go_on) refl

  abbrev pub next_state : State S
  next_state = record st { token = (b.next k st.balancer).0; balancer = (b.next k st.balancer).1 }

  pub go_on-again : is_exhausted b env st ≡ false → go_on b env k st ≡ Outcome.again next_state
  unfolding go_on
  go_on-again e = rw (e, go_on) refl

-- The states before the rounds of a call that begins in a state.
pub data Reached {S : Type 0} (b : Balance S) (env : Env) (first : State S)
    : ℕ → State S → Type 0 where
  begun : Reached b env first 0 first
  gone_on :
      {k : ℕ} {st st' : State S}
      → Reached b env first k st
      → round b env k st ≡ Outcome.again st'
      → Reached b env first (suc k) st'
