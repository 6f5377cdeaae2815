-- ===== src/Core/Tcp/Connect/Stuck.antt =====
-- A balancer that keeps proposing one peer, for bytehub_core/src/tcp/middle.rs with
-- bytehub_lb/src/ip_hash.rs.
use bytehub.Prelude.{
  ℕ, zero, suc, ◌<◌, ◌≡◌, refl, ap, sym, ◌∙◌, inl, inr, true, false, Option, none, some, List, [],
  ◌∷◌, get_elem?, length, Option-cases, arith,
}
use bytehub.Core.Tcp.Connect.Rounds.{
  failed, IsRound, round-IsRound, next_state, go_on-again, Reached, begun, gone_on,
}
use bytehub.Lb.{Token, HealthCheckConfig}
use bytehub.Lb.IpHash
use bytehub.Lb.IpHash.{IpHash, next_from}
use bytehub.Lb.IpHash.Probing.{next_from_sticky, on_failure_off}
use bytehub.Core.Endpoint.{RemoteAddr}
use bytehub.Core.Tcp.Pool.{Stream, RemotePool, is_conn_alive, pop_idle}
use bytehub.Core.Tcp.Pool.Dead.{pop_idle-dead}
use bytehub.Core.Tcp.Connect.{
  Balance, Env, State, Outcome, has, insert, attempt, report, note, is_exhausted, select_addr,
  round, rounds, start, try_connect_with_fallback,
}

abbrev max_latency : Option HealthCheckConfig → Option ℕ
max_latency none = none
max_latency (some cfg) = cfg.max_latency_ms

abbrev given : IpHash → Option (Token × IpHash) → Option Token × IpHash
given b none = (none, b)
given b (some (t, b')) = (some t, b')

-- A hash ring, for a client whose walk starts at `start`, as the loop of retries uses it. A panic of
-- `next_from`, at a start past the ring or a token without a backend, gives no token here.
abbrev pub ip_hash_balance : IpHash → ℕ → Balance IpHash
ip_hash_balance b start = record {
  next = λ now s. given s (next_from now s start);
  on_failure = λ now s t. IpHash.on_failure now s t;
  total = b.total;
  max_latency = max_latency b.config;
}

-- The attempt after a pop: its connection, or the dial.
abbrev after_pop : Env → ℕ → Token → Option Stream × RemotePool → Option Stream × Option RemotePool
after_pop env k t r = elim r.0 [
  | none ↦ (env.dial k (select_addr env (some t)), some r.1)
  | some s ↦ (some s, some r.1)
]

after_pop-none :
    (env : Env) (k : ℕ) (t : Token) (r : Option Stream × RemotePool)
    → r.0 ≡ none
    → (after_pop env k t r).0 ≡ env.dial k (select_addr env (some t))
after_pop-none env k t (none, p) e = refl
after_pop-none env k t (some s, p) e = absurd cc

module _ {S : Type 0} (bal : Balance S) (env : Env)
    (dead : (s : Stream) → is_conn_alive env.try_read s ≡ false)
    (down : (k : ℕ) (a : RemoteAddr) → env.dial k a ≡ none) where
  -- Where no connection of the pool is alive and no dial succeeds, a round gets no connection.
  attempt-dead : (k : ℕ) (st : State S) → (attempt bal env k st).0 ≡ none
  unfolding attempt
  attempt-dead k st = elim (Option-cases st.pool) [
    | inl e ↦ rw (e, attempt) (down k (select_addr env st.token))
    | inr (p, e) ↦ elim (Option-cases st.token) [
      | inl e' ↦ rw (e, attempt, e') (down k (select_addr env none))
      | inr (t, e') ↦
          let gone : attempt bal env k st
              ≡ after_pop env k t (pop_idle env.try_read (env.now k) t p) =
            rw (e, attempt, e') refl in
          ap (λ (a : Option Stream × Option RemotePool). a.0) gone
          ∙ after_pop-none env k t (pop_idle env.try_read (env.now k) t p)
              (pop_idle-dead env.try_read dead (env.now k) t p)
          ∙ down k (select_addr env (some t))
    ]
  ]

module _ (b : IpHash) (place : ℕ) (node : IpHash.Node) (env : Env) (pool : Option RemotePool)
    (off : b.config ≡ none) (at : get_elem? b.nodes place ≡ some node) (many : 1 < b.total)
    (known : env.client_known ≡ true) (dead : (s : Stream) → is_conn_alive env.try_read s ≡ false)
    (down : (k : ℕ) (a : RemoteAddr) → env.dial k a ≡ none) where
  abbrev bal : Balance IpHash
  bal = ip_hash_balance b place

  -- The state before a round for the one peer, with nothing but that peer tried.
  record IsStuck (st : State IpHash) : Type 0 where
    token : st.token ≡ some node.token
    same : st.balancer ≡ b
    little : insert node.token st.tried ≡ node.token ∷ []

  next_same : (k : ℕ) → bal.next k b ≡ (some node.token, b)
  next_same k = ap (given b) (next_from_sticky k b place node off at)

  insert_again : insert node.token (node.token ∷ []) ≡ node.token ∷ []
  unfolding insert has
  insert_again = ground arith

  report_same : (k : ℕ) (st : State IpHash) → IsStuck st → report bal env k st ≡ b
  unfolding report
  report_same k st s =
      rw (s.token, report)
        (ap (λ x. IpHash.on_failure k x node.token) s.same ∙ on_failure_off k b node.token off)

  note_same : (st : State IpHash) → IsStuck st → note bal env st ≡ node.token ∷ []
  unfolding note
  note_same st s = rw (s.token, note) s.little

  still_open :
      (tried : List ℕ) (st : State IpHash)
      → st.tried ≡ tried
      → tried ≡ node.token ∷ []
      → is_exhausted bal env st ≡ false
  unfolding is_exhausted
  still_open tried st e f =
      let one : length st.tried ≡ 1 = ap (λ (l : List ℕ). length l) (e ∙ f) in
      ground (arith, one, many)

  -- A round fails and leads to the same peer again.
  round_same :
      (k : ℕ) (st : State IpHash)
      → IsStuck st
      → (st' : State IpHash) × (round bal env k st ≡ Outcome.again st')
        × IsStuck st'
        × (st'.tried ≡ node.token ∷ [])
  unfolding IsRound
  round_same k st s = elim (round-IsRound bal env k st) [
    | inl (x, st1, e, got, fast) ↦
        let lost : none ≡ some x = sym (attempt-dead bal env dead down k st) ∙ got in absurd cc
    | inr (pool', fallback, e, from) ↦
        let st1 = failed bal env k st pool' fallback in
        let noted = note_same st s in
        let given' = ap (λ (x : IpHash). bal.next k x) (report_same k st s) ∙ next_same k in
        (
          next_state bal env k st1,
          e ∙ go_on-again bal env k st1 (still_open (note bal env st) st1 refl noted),
          record {
            token = ap (λ (n : Option Token × IpHash). n.0) given';
            same = ap (λ (n : Option Token × IpHash). n.1) given';
            little = ap (λ (l : List ℕ). insert node.token l) noted ∙ insert_again;
          },
          noted,
        )
  ]

  start-IsStuck : IsStuck (start bal env b pool)
  unfolding start insert has
  start-IsStuck = record {
    token = ap (λ (n : Option Token × IpHash). n.0) (next_same 0);
    same = ap (λ (n : Option Token × IpHash). n.1) (next_same 0);
    little = refl;
  }

  rounds_same : (fuel k : ℕ) (st : State IpHash) → IsStuck st → rounds bal env fuel k st ≡ none
  unfolding rounds
  rounds_same zero k st s = refl
  rounds_same (suc fuel) k st s =
      let (st', e, s', tried) = round_same k st s in
      rw (e, rounds) (rounds_same fuel (suc k) st' s')

  reached_same :
      (k : ℕ) → (st : State IpHash) × Reached bal env (start bal env b pool) k st × IsStuck st
  reached_same zero = (start bal env b pool, begun, start-IsStuck)
  reached_same (suc k) =
      let (st, before, s) = reached_same k in
      let (st', e, s', tried) = round_same k st s in (st', gone_on before e, s')

  -- With the hash ring without health checks, two peers or more, a client whose address is known, every
  -- dial failing, and no connection of the pool, if there is one, alive: the retries never end. They
  -- come to every round, each round is for the same peer, and after each the set of tried peers holds
  -- this one only.
  pub try_connect-stuck :
      (fuel k : ℕ)
      → (try_connect_with_fallback (ip_hash_balance b place) env fuel b pool ≡ none)
        × ((st st' : State IpHash) × Reached
              (ip_hash_balance b place)
              env
              (start (ip_hash_balance b place) env b pool)
              k
              st
            × (st.token ≡ some node.token)
            × (round (ip_hash_balance b place) env k st ≡ Outcome.again st')
            × (st'.token ≡ some node.token)
            × (st'.tried ≡ node.token ∷ []))
  unfolding try_connect_with_fallback
  try_connect-stuck fuel k =
      let (st, before, s) = reached_same k in
      let (st', e, s', tried) = round_same k st s in
      (
        rw known (rounds_same fuel 0 (start bal env b pool) start-IsStuck),
        (st, st', before, s.token, e, s'.token, tried),
      )
