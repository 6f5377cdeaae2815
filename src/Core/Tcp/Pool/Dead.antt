-- ===== src/Core/Tcp/Pool/Dead.antt =====
-- A pool of bytehub_core/src/tcp/pool.rs whose connections are all dead.
use bytehub.Prelude.{
  ℕ, ◌-◌, ◌≡◌, refl, false, none, List, [], ◌∷◌, ltb, Bool-cases, Option-cases, inl, inr,
}
use bytehub.Lb.{Token}
use bytehub.Core.Tcp.Pool.{
  Stream, TryRead, IdleConn, RemotePool, from_secs, is_conn_alive, pop_healthy, pop_idle,
}

module _ (try_read : Stream → TryRead)
    (dead : (s : Stream) → is_conn_alive try_read s ≡ false) where
  pop_healthy-dead :
      (now timeout : ℕ) (idle : List IdleConn) → (pop_healthy try_read now timeout idle).0 ≡ none
  unfolding pop_healthy
  pop_healthy-dead now timeout [] = refl
  pop_healthy-dead now timeout (c ∷ cs) = elim (Bool-cases (ltb timeout (now - c.created_at))) [
    | inl old ↦ rw old (pop_healthy-dead now timeout cs)
    | inr young ↦ rw (young, dead c.stream) (pop_healthy-dead now timeout cs)
  ]

  -- A pool whose connections are all dead gives none.
  pub pop_idle-dead : (now : ℕ) (t : Token) (p : RemotePool) → (pop_idle try_read now t p).0 ≡ none
  unfolding pop_idle
  pop_idle-dead now t p = elim (Option-cases (p.pools t)) [
    | inl e ↦ rw (e, pop_idle) refl
    | inr (idle, e) ↦
        rw (e, pop_idle) (pop_healthy-dead now (from_secs p.config.pool_idle_timeout_secs) idle)
  ]
