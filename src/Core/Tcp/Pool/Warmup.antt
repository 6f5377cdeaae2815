-- ===== src/Core/Tcp/Pool/Warmup.antt =====
-- The warm-up task reaches its target, for bytehub_core/src/tcp/pool.rs.
use Prim.Native.Nat.{min, max}
use bytehub.Prelude.{
  ℕ, zero, suc, ◌+◌, ◌-◌, ◌*◌, ◌^◌, ◌≤◌, ◌<◌, ◌≡◌, refl, true, Option, some, List, ◌∷◌, ltb, ◌==◌,
  ap, ◌∙◌, if◌then◌else◌, arith, inl, inr, Bool-cases, length,
}
use bytehub.Lb.{Token}
use bytehub.Core.Endpoint.{RemoteAddr}
use bytehub.Core.Tcp.Pool.{
  PoolConfig, IdleConn, Stream, RemotePool, keep_dialled, push, connect_new, dial_secs, warm_rounds,
  warm_peer, len_of,
}

-- The seconds of a dial cover the configured milliseconds, of which there is at least one, and are
-- fewer than one second more.
pub dial_secs-bounds :
    (c : PoolConfig)
    → 0 < c.pool_connect_timeout_ms
    → c.pool_connect_timeout_ms + 999 < 2 ^ 64
    → (c.pool_connect_timeout_ms ≤ dial_secs c * 1000)
      × (dial_secs c * 1000 < c.pool_connect_timeout_ms + 1000)
unfolding dial_secs
dial_secs-bounds c pos small = ground arith

len_of-length :
    (token : Token) (p : RemotePool) (idle : List IdleConn)
    → p.pools token ≡ some idle
    → len_of token p ≡ length idle
unfolding len_of
len_of-length token p idle e = rw (e, len_of) refl

-- One more connection, unless the stack is full; the rest of the pool stays.
len_of-keep_dialled :
    (t : ℕ) (token : Token) (s : Stream) (p : RemotePool) (idle : List IdleConn)
    → p.pools token ≡ some idle
    → (idle' : List IdleConn) × ((keep_dialled t token s p).pools token ≡ some idle')
      × (length idle'
          ≡ (if ltb (length idle) p.config.pool_size then suc (length idle) else length idle))
unfolding keep_dialled push
len_of-keep_dialled t token s p idle e =
    let self : (token == token) ≡ true = ground arith in
    elim (Bool-cases (ltb (length idle) p.config.pool_size)) [
      | inl room ↦ (
        record { stream = s; created_at = t } ∷ idle,
        rw (e, keep_dialled, room) (rw self refl),
        rw room refl,
      )
      | inr full ↦ (idle, rw (e, keep_dialled, full) e, rw full refl)
    ]

module _ (t : ℕ) (token : Token) (s : Stream) (p : RemotePool) where
  keep_dialled-config : (keep_dialled t token s p).config ≡ p.config
  unfolding keep_dialled
  keep_dialled-config = ground arith

  keep_dialled-peer_addrs : (keep_dialled t token s p).peer_addrs ≡ p.peer_addrs
  unfolding keep_dialled
  keep_dialled-peer_addrs = ground arith

-- A peer that answers every dial with a connection.
abbrev pub IsReachable : (ℕ → RemoteAddr → ℕ → Option Stream) → Token → RemotePool → Type 0
IsReachable connect token p = (k : ℕ) → (s : Stream) × (connect_new (connect k) token p ≡ some s)

module _ (connect : ℕ → RemoteAddr → ℕ → Option Stream) (now : ℕ → ℕ) (token : Token) where
  IsReachable-keep_dialled :
      (t : ℕ) (s : Stream) (p : RemotePool)
      → IsReachable connect token p
      → IsReachable connect token (keep_dialled t token s p)
  unfolding connect_new
  IsReachable-keep_dialled t s p up k = rw (keep_dialled-config, keep_dialled-peer_addrs) (up k)

  warm_rounds-length :
      (rounds k : ℕ) (p : RemotePool) (idle : List IdleConn)
      → IsReachable connect token p
      → p.pools token ≡ some idle
      → length idle ≤ p.config.pool_size
      → (idle' : List IdleConn) × ((warm_rounds connect now token k rounds p).pools token
          ≡ some idle')
        × (length idle' ≡ min (length idle + rounds) p.config.pool_size)
  unfolding warm_rounds
  warm_rounds-length zero k p idle up e fits = (idle, e, omega arith)
  warm_rounds-length (suc rounds) k p idle up e fits =
      let (s, dialled) = up k in
      let p' = keep_dialled (now k) token s p in
      let (idle1, e1, n1) = len_of-keep_dialled (now k) token s p idle e in
      let same = keep_dialled-config (now k) token s p in
      let size : p'.config.pool_size ≡ p.config.pool_size =
        ap (λ (c : PoolConfig). c.pool_size) same in
      let (idle2, e2, n2) =
        warm_rounds-length rounds (suc k) p' idle1 (IsReachable-keep_dialled (now k) s p up) e1
          (ground arith) in
      (idle2, rw (dialled, warm_rounds) e2, ground arith)

  -- For a registered peer that answers every dial, whose stack is not longer than the size of the
  -- pool, with no other access meanwhile: the rounds of the warm-up task for it leave a stack as long
  -- as the longer of the stack before and the configured minimum, or as the size if that is less.
  pub warm_peer-length :
      (p : RemotePool) (idle : List IdleConn)
      → IsReachable connect token p
      → p.pools token ≡ some idle
      → length idle ≤ p.config.pool_size
      → len_of token (warm_peer connect now token p)
        ≡ min (max (length idle) p.config.pool_min_idle) p.config.pool_size
  unfolding warm_peer
  warm_peer-length p idle up e fits =
      let needed = p.config.pool_min_idle - length idle in
      let (idle', e', n) = warm_rounds-length needed 0 p idle up e fits in
      let filled = len_of-length token (warm_rounds connect now token 0 needed p) idle' e' in
      rw (len_of-length token p idle e) (filled ∙ omega (arith, n))
