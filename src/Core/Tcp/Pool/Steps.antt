-- ===== src/Core/Tcp/Pool/Steps.antt =====
-- Any interleaving of the accesses to the table, for bytehub_core/src/tcp/pool.rs: relay workers pop
-- and give back, the warm-up task keeps what it has dialled.
use bytehub.Prelude.{
  ℕ, ◌≤◌, ◌≡◌, refl, Bool, true, false, Option, none, some, List, [], ◌∷◌, ltb, ltb→lt, ◌==◌, sym,
  ◌∙◌, arith, inl, inr, Bool-cases, Option-cases, length,
}
use bytehub.Lb.{Token}
use bytehub.Core.Endpoint.{RemoteAddr}
use bytehub.Core.Tcp.Pool.{
  PoolConfig, IdleConn, Stream, TryRead, RemotePool, new, register, insert, pop_idle, return_conn,
  keep_dialled, push, store, from_secs, pop_healthy, is_conn_alive,
}
use bytehub.Core.Tcp.Pool.Pop.{length-pop_healthy}

-- No stack is longer than the configured size.
abbrev pub IsBounded : RemotePool → Type 0
IsBounded p =
    (t : Token) (idle : List IdleConn) → p.pools t ≡ some idle → length idle ≤ p.config.pool_size

pub data Step : RemotePool → RemotePool → Type 0 where
  pop :
      {p : RemotePool} (try_read : Stream → TryRead) (now : ℕ) (t : Token)
      → Step p (pop_idle try_read now t p).1
  give_back :
      {p : RemotePool} (try_read : Stream → TryRead) (now : ℕ) (t : Token) (s : Stream) (ok : Bool)
      (obfs : List ℕ)
      → Step p (return_conn try_read now t s ok obfs p)
  keep : {p : RemotePool} (now : ℕ) (t : Token) (s : Stream) → Step p (keep_dialled now t s p)

pub data Steps : RemotePool → RemotePool → Type 0 where
  done : {p : RemotePool} → Steps p p
  step : {p q r : RemotePool} → Step p q → Steps q r → Steps p r

length-push :
    (now : ℕ) (s : Stream) (size : ℕ) (idle : List IdleConn)
    → length idle ≤ size
    → length (push now s size idle) ≤ size
unfolding push
length-push now s size idle h = ground arith

-- A stack of a bounded length takes the place of another.
insert-IsBounded :
    (p : RemotePool) (t : Token) (idle : List IdleConn)
    → IsBounded p
    → length idle ≤ p.config.pool_size
    → IsBounded (record p { pools = insert t idle p.pools })
insert-IsBounded p t idle b h u idle' e = elim (Bool-cases (u == t)) [
  | inl y ↦ let e' : some idle ≡ some idle' = sym (rw y refl) ∙ e in ground (arith, e')
  | inr n ↦ b u idle' (sym (rw n refl) ∙ e)
]

store-IsBounded :
    (now : ℕ) (t : Token) (s : Stream) (p : RemotePool) → IsBounded p → IsBounded (store now t s p)
unfolding store
store-IsBounded now t s p b = elim (Option-cases (p.pools t)) [
  | inl e ↦ rw (e, store) b
  | inr (idle, e) ↦
      rw (e, store)
        (insert-IsBounded p t (push now s p.config.pool_size idle) b
          (length-push now s p.config.pool_size idle (b t idle e)))
]

return_conn-IsBounded :
    (try_read : Stream → TryRead) (now : ℕ) (t : Token) (s : Stream) (ok : Bool) (obfs : List ℕ)
    (p : RemotePool)
    → IsBounded p
    → IsBounded (return_conn try_read now t s ok obfs p)
unfolding return_conn
return_conn-IsBounded try_read now t s false obfs p b = b
return_conn-IsBounded try_read now t s true (o ∷ obfs) p b = b
return_conn-IsBounded try_read now t s true [] p b = elim (Bool-cases (is_conn_alive try_read s)) [
  | inl e ↦ rw (e, return_conn) (store-IsBounded now t s p b)
  | inr e ↦ rw (e, return_conn) b
]

pop_idle-IsBounded :
    (try_read : Stream → TryRead) (now : ℕ) (t : Token) (p : RemotePool)
    → IsBounded p
    → IsBounded (pop_idle try_read now t p).1
unfolding pop_idle
pop_idle-IsBounded try_read now t p b = elim (Option-cases (p.pools t)) [
  | inl e ↦ rw (e, pop_idle) b
  | inr (idle, e) ↦
      let timeout = from_secs p.config.pool_idle_timeout_secs in
      rw (e, pop_idle)
        (insert-IsBounded p t (pop_healthy try_read now timeout idle).1 b
          (omega (arith, length-pop_healthy try_read now timeout idle, b t idle e)))
]

pub keep_dialled-IsBounded :
    (now : ℕ) (t : Token) (s : Stream) (p : RemotePool)
    → IsBounded p
    → IsBounded (keep_dialled now t s p)
unfolding keep_dialled
keep_dialled-IsBounded now t s p b = elim (Option-cases (p.pools t)) [
  | inl e ↦ rw (e, keep_dialled) b
  | inr (idle, e) ↦ elim (Bool-cases (ltb (length idle) p.config.pool_size)) [
    | inl room ↦
        rw (e, keep_dialled, room)
          (insert-IsBounded p t (record { stream = s; created_at = now } ∷ idle) b
            (ltb→lt (length idle) p.config.pool_size room))
    | inr full ↦ rw (e, keep_dialled, full) b
  ]
]

Step-IsBounded : {p q : RemotePool} → Step p q → IsBounded p → IsBounded q
Step-IsBounded {p = p} (pop try_read now t) b = pop_idle-IsBounded try_read now t p b
Step-IsBounded {p = p} (give_back try_read now t s ok obfs) b =
    return_conn-IsBounded try_read now t s ok obfs p b
Step-IsBounded {p = p} (keep now t s) b = keep_dialled-IsBounded now t s p b

pub Steps-IsBounded : {p q : RemotePool} → Steps p q → IsBounded p → IsBounded q
Steps-IsBounded done b = b
Steps-IsBounded (step s rest) b = Steps-IsBounded rest (Step-IsBounded s b)

-- The stacks of a new table are empty.
register-empty :
    (peers : List (Token × RemoteAddr)) (pools : Token → Option (List IdleConn))
    → ((t : Token) (idle : List IdleConn) → pools t ≡ some idle → length idle ≡ 0)
    → (t : Token) (idle : List IdleConn) → register peers pools t ≡ some idle
    → length idle ≡ 0
unfolding register
register-empty [] pools h t idle e = h t idle e
register-empty ((k, a) ∷ peers) pools h t idle e =
    register-empty peers (insert k [] pools)
      (λ u idle' e'. elim (Bool-cases (u == k)) [
        | inl y ↦ let e'' : some [] ≡ some idle' = sym (rw y refl) ∙ e' in ground (arith, e'')
        | inr n ↦ h u idle' (sym (rw n refl) ∙ e')
      ])
      t idle e

-- From a new table on, whatever accesses relay workers and the warm-up task make and in whatever
-- order, no peer ever has more idle connections than the configured size.
pub new-IsBounded :
    (config : PoolConfig) (peers : List (Token × RemoteAddr)) (p : RemotePool)
    → Steps (new config peers) p
    → IsBounded p
unfolding new
new-IsBounded config peers p steps = Steps-IsBounded steps (λ t idle e.
    let z = register-empty peers (λ t. none) (λ t idle e. cc e) t idle e in omega (arith, z))
