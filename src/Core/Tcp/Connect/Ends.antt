-- ===== src/Core/Tcp/Connect/Ends.antt =====
-- With what the retries of bytehub_core/src/tcp/middle.rs end.
use bytehub.Prelude.{
  ℕ, zero, suc, ◌≡◌, refl, ap, sym, subst, ◌∙◌, ◌⊎◌, inl, inr, Bool, true, false, Option, none,
  some, ltb, Bool-cases, Option-cases,
}
use bytehub.Lb.{Token}
use bytehub.Core.Tcp.Pool.{Stream, RemotePool}
use bytehub.Core.Tcp.Connect.{
  Balance, Env, Fallback, State, Result, attempt, remember, is_exhausted, fall_back, is_slow,
  announce, rounds, start, try_connect_with_fallback,
}
use bytehub.Core.Tcp.Connect.Rounds.{
  failed, IsRound, IsRemembered, round-IsRound, go_on-stop, go_on-again, next_state, Reached, begun,
  gone_on,
}

module _ {S : Type 0} (b : Balance S) (env : Env) (first : State S) where
  -- A round of these retries got the connection, for this token, and it was slow or not.
  pub record IsGot (s : Stream) (t : Option Token) (slow : Bool) : Type 0 where
    pub round_of : ℕ
    pub state : State S
    pub reached : Reached b env first round_of state
    pub got : (attempt b env round_of state).0 ≡ some s
    pub token : state.token ≡ t
    pub speed : is_slow b env (env.elapsed_ms round_of) ≡ slow

  -- The connection that is kept is a slow one that a round got.
  unfoldable pub IsKept : Option Fallback → Type 0
  IsKept none = Unit
  IsKept (some c) = IsGot c.stream c.token true

  -- The retries end with a connection that was fast enough, or else with every peer tried, with the
  -- slow connection that is kept, or with an error if there is none; or with an error in the log.
  unfoldable pub IsEnd : Result → State S → Type 0
  IsEnd (Result.ok s t) st = IsGot s t false ⊎ ((is_exhausted b env st ≡ true) × IsGot s t true)
  IsEnd Result.error st =
      ((s : Stream) × (t : Option Token) × (g : IsGot s t false) × (env.logged g.round_of s
          ≡ false))
      ⊎ ((is_exhausted b env st ≡ true) × (st.fallback ≡ none))

  announce-IsEnd :
      (s : Stream) (t : Option Token) (st : State S) (g : IsGot s t false)
      → IsEnd (announce b env g.round_of s t) st
  unfolding IsEnd announce
  announce-IsEnd s t st g = elim (Bool-cases (env.logged g.round_of s)) [
    | inl e ↦ rw (e, announce) (inl g)
    | inr e ↦ rw (e, announce) (inl (s, t, g, e))
  ]

  fall_back-IsEnd :
      (st : State S)
      → is_exhausted b env st ≡ true
      → IsKept st.fallback
      → IsEnd (fall_back b env st) st
  unfolding fall_back IsEnd is_exhausted IsKept
  fall_back-IsEnd st over kept = elim (Option-cases st.fallback) [
    | inl e ↦ rw (e, fall_back) (inr (over, refl))
    | inr (c, e) ↦ rw (e, fall_back) (inr (over, subst IsKept e kept))
  ]

  remember-IsKept :
      (k : ℕ) (st : State S) (fallback : Option Fallback)
      → Reached b env first k st
      → IsKept st.fallback
      → IsRemembered b env k st fallback
      → IsKept fallback
  unfolding IsKept remember
  remember-IsKept k st fallback at kept (inl same) = subst IsKept (sym same) kept
  remember-IsKept k st fallback at kept (inr (s, got, slow, is)) =
      let mine : IsGot s st.token true = record {
        round_of = k;
        state = st;
        reached = at;
        got = got;
        token = refl;
        speed = slow;
      } in
      subst IsKept (sym is) (elim (Option-cases st.fallback) [
        | inl e ↦ rw (e, remember) mine
        | inr (f, e) ↦ elim (Bool-cases (ltb (env.elapsed_ms k) f.ms)) [
          | inl less ↦ rw (e, less, remember) mine
          | inr more ↦ rw (e, more, remember) (subst IsKept e kept)
        ]
      ])

  IsEnd-unique :
      (o : Option (Result × State S)) (r r' : Result) (st st' : State S)
      → o ≡ some (r, st)
      → o ≡ some (r', st')
      → IsEnd r st
      → IsEnd r' st'
  IsEnd-unique o r r' st st' e e' end =
      subst (λ (p : Result × State S). IsEnd p.0 p.1)
        (ap (λ (q : Option (Result × State S)). elim q [ none ↦ (r, st) | some p ↦ p ])
          (sym e ∙ e'))
        end

  rounds-IsEnd :
      (fuel k : ℕ) (st st' : State S) (r : Result)
      → Reached b env first k st
      → IsKept st.fallback
      → rounds b env fuel k st ≡ some (r, st')
      → IsEnd r st'
  unfolding rounds IsRound
  rounds-IsEnd zero k st st' r at kept e = absurd cc
  rounds-IsEnd (suc fuel) k st st' r at kept e = elim (round-IsRound b env k st) [
    | inl (s, st1, e1, got, fast) ↦
        let mine : IsGot s st.token false = record {
          round_of = k;
          state = st;
          reached = at;
          got = got;
          token = refl;
          speed = fast;
        } in
        IsEnd-unique (rounds b env (suc fuel) k st) (announce b env k s st.token) r st1 st'
          (rw (e1, rounds) refl) e (announce-IsEnd s st.token st1 mine)
    | inr (pool, fallback, e1, from) ↦
        let st1 = failed b env k st pool fallback in
        let kept1 = remember-IsKept k st fallback at kept from in
        elim (Bool-cases (is_exhausted b env st1)) [
          | inl over ↦
              IsEnd-unique (rounds b env (suc fuel) k st) (fall_back b env st1) r st1 st'
                (rw (e1 ∙ go_on-stop b env k st1 over, rounds) refl) e
                (fall_back-IsEnd st1 over kept1)
          | inr open_yet ↦
              let on = e1 ∙ go_on-again b env k st1 open_yet in
              let same : rounds b env (suc fuel) k st
                  ≡ rounds b env fuel (suc k) (next_state b env k st1) =
                rw (on, rounds) refl in
              rounds-IsEnd fuel (suc k) (next_state b env k st1) st' r (gone_on at on) kept1
                (sym same ∙ e)
        ]
  ]

-- Whenever the retries end for a client whose address is known, they end with a connection that a round
-- of these retries got within the latency limit, for the token of that round; or, when as many peers
-- have been tried as there are, with a connection that a round got, but over the limit, for the token of
-- that round; or with an error: then no addresses for the log were found for a connection that a round
-- got within the limit, or as many peers were tried as there are and no slow connection is kept.
pub try_connect-IsEnd :
    {S : Type 0} (b : Balance S) (env : Env) (fuel : ℕ) (bal : S) (pool : Option RemotePool)
    (st : State S) (r : Result)
    → env.client_known ≡ true
    → try_connect_with_fallback b env fuel bal pool ≡ some (r, st)
    → IsEnd b env (start b env bal pool) r st
unfolding try_connect_with_fallback IsKept start
try_connect-IsEnd b env fuel bal pool st r known e =
    rounds-IsEnd b env (start b env bal pool) fuel 0 (start b env bal pool) st r begun tt
      (rw known at e)
