-- ===== src/Core/Tcp/Pool/Pop.antt =====
-- What a pop gives out and what it drops, for bytehub_core/src/tcp/pool.rs.
use bytehub.Prelude.{
  ℕ, ◌-◌, ◌≤◌, ◌≡◌, refl, true, false, Option, none, some, List, [], ◌∷◌, ◌++◌, ltb, ltb→lt, arith,
  inl, inr, Bool-cases, ap, length,
}
use bytehub.Core.Tcp.Pool.{IdleConn, Stream, TryRead, is_conn_alive, pop_healthy}

module _ (try_read : Stream → TryRead) (now idle_timeout : ℕ) where
  -- A connection is given out if it is young enough and a read would wait.
  abbrev pub IsUsable : IdleConn → Type 0
  IsUsable c = (now - c.created_at ≤ idle_timeout) × (try_read c.stream ≡ TryRead.would_block)

  abbrev pub AllUnusable : List IdleConn → Type 0
  AllUnusable [] = Unit
  AllUnusable (c ∷ cs) = (¬ IsUsable c) × AllUnusable cs

  -- A connection that is usable, above the rest of the stack and below unusable ones only.
  abbrev pub IsNewest : List IdleConn → Stream → List IdleConn → Type 0
  IsNewest idle s rest =
      (dropped : List IdleConn) × (c : IdleConn) × (idle ≡ dropped ++ c ∷ rest)
      × (c.stream ≡ s)
      × IsUsable c
      × AllUnusable dropped

  is_conn_alive_iff :
      (s : Stream) → (is_conn_alive try_read s ≡ true) → try_read s ≡ TryRead.would_block
  unfolding is_conn_alive
  is_conn_alive_iff s e = ground arith

  is_conn_alive_not :
      (s : Stream) → (is_conn_alive try_read s ≡ false) → try_read s ≡ TryRead.would_block → ⊥
  unfolding is_conn_alive
  is_conn_alive_not s e w = ground arith

  pub IsPopped : List IdleConn → Option Stream × List IdleConn → Type 0
  IsPopped idle (none, rest) = (rest ≡ []) × AllUnusable idle
  IsPopped idle (some s, rest) = IsNewest idle s rest

  drop_one :
      (c : IdleConn) (cs : List IdleConn) (r : Option Stream × List IdleConn)
      → (¬ IsUsable c)
      → IsPopped cs r
      → IsPopped (c ∷ cs) r
  unfolding IsPopped
  drop_one c cs (none, rest) bad (e, all) = (e, (bad, all))
  drop_one c cs (some s, rest) bad (dropped, x, e, es, ok, all) =
      (c ∷ dropped, x, ap (λ t. c ∷ t) e, es, ok, (bad, all))

  -- A pop gives out the usable connection that was pushed last, drops the unusable ones above it and
  -- keeps all below it; it gives none exactly if no connection is usable, and then none is left.
  pub pop_healthy-IsPopped :
      (idle : List IdleConn) → IsPopped idle (pop_healthy try_read now idle_timeout idle)
  unfolding pop_healthy IsPopped
  pop_healthy-IsPopped [] = (refl, tt)
  pop_healthy-IsPopped (c ∷ cs) =
      let rest = pop_healthy-IsPopped cs in
      let r = pop_healthy try_read now idle_timeout cs in
      elim (Bool-cases (ltb idle_timeout (now - c.created_at))) [
        | inl old ↦
            let late = ltb→lt idle_timeout (now - c.created_at) old in
            rw old (
              drop_one c cs r
                (λ (x, y). let z : now - c.created_at ≤ idle_timeout = x in omega (arith, z, late))
                rest)
        | inr young ↦ elim (Bool-cases (is_conn_alive try_read c.stream)) [
          | inl alive ↦
              rw (young, alive)
                ([], c, refl, refl, (ground arith, is_conn_alive_iff c.stream alive), tt)
          | inr dead ↦
              rw (young, dead) (drop_one c cs r (λ (x, y). is_conn_alive_not c.stream dead y) rest)
        ]
      ]

-- The length of what is left after a pop.
pub length-pop_healthy :
    (try_read : Stream → TryRead) (now idle_timeout : ℕ) (idle : List IdleConn)
    → length (pop_healthy try_read now idle_timeout idle).1 ≤ length idle
unfolding pop_healthy
length-pop_healthy try_read now idle_timeout [] = omega arith
length-pop_healthy try_read now idle_timeout (c ∷ cs) =
    ground (arith, length-pop_healthy try_read now idle_timeout cs)
