-- ===== src/Core/Tcp/Pool.antt =====
-- bytehub_core/src/tcp/pool.rs: the pool of idle connections for each peer. All calls hold one lock
-- for each access to the table, so an access is one step. A stream is the number of its socket; the
-- clock counts nanoseconds and is an argument, as are tokio's `try_read` and the dial of
-- tcp/socket.rs. The stack of idle connections has its top, the one pushed last, at the head.
pub mod Pop
pub mod Dead
pub mod Steps
pub mod Warmup
mod Tests
use bytehub.Prelude.{
  ℕ, zero, suc, ◌+◌, ◌-◌, ◌*◌, ◌/◌, ◌%◌, ◌^◌, ◌≡◌, refl, Bool, true, false, Option, none, some,
  List, [], ◌∷◌, ltb, leb, ◌==◌, if◌then◌else◌, length,
}
use bytehub.Lb.{Token}
use bytehub.Core.Endpoint.{RemoteAddr}

pub record PoolConfig : Type 0 where
  pub pool_size : ℕ
  pub pool_min_idle : ℕ
  pub pool_connect_timeout_ms : ℕ
  pub pool_idle_timeout_secs : ℕ

abbrev pub default_config : PoolConfig
default_config = record {
  pool_size = 1024;
  pool_min_idle = 64;
  pool_connect_timeout_ms = 1000;
  pool_idle_timeout_secs = 20;
}

abbrev pub Stream : Type 0
Stream = ℕ

pub record IdleConn : Type 0 where
  pub stream : Stream
  pub created_at : ℕ

-- The results of a read that does not wait.
pub data TryRead : Type 0 where
  would_block failed : TryRead
  ready : ℕ → TryRead

unfoldable pub is_conn_alive : (Stream → TryRead) → Stream → Bool
is_conn_alive try_read s = elim (try_read s) [
  | would_block ↦ true
  | failed ↦ false
  | ready n ↦ false
]

-- `Duration::from_secs`.
abbrev pub from_secs : ℕ → ℕ
from_secs secs = secs * 1000000000

pub pop_healthy : (Stream → TryRead) → ℕ → ℕ → List IdleConn → Option Stream × List IdleConn
unfolding is_conn_alive
pop_healthy try_read now idle_timeout [] = (none, [])
pop_healthy try_read now idle_timeout (c ∷ cs) =
    let rest = pop_healthy try_read now idle_timeout cs in
    if ltb idle_timeout (now - c.created_at)
    then rest
    else if is_conn_alive try_read c.stream
    then (some c.stream, cs)
    else rest

pub push : ℕ → Stream → ℕ → List IdleConn → List IdleConn
push now s max_size idle =
    if ltb (length idle) max_size then record { stream = s; created_at = now } ∷ idle else idle

-- The table: the stack of each registered peer.
pub record RemotePool : Type 0 where
  pub pools : Token → Option (List IdleConn)
  pub config : PoolConfig
  pub peer_addrs : List (Token × RemoteAddr)

abbrev pub insert {ℓ} : {A : Type ℓ} → ℕ → A → (ℕ → Option A) → ℕ → Option A
insert k v table i = if i == k then some v else table i

pub register :
    List (Token × RemoteAddr) → (Token → Option (List IdleConn)) → Token → Option (List IdleConn)
register [] pools = pools
register ((t, a) ∷ peers) pools = register peers (insert t [] pools)

pub new : PoolConfig → List (Token × RemoteAddr) → RemotePool
unfolding register
new config peers = record {
  pools = register peers (λ t. none);
  config = config;
  peer_addrs = peers;
}

pub pop_idle : (Stream → TryRead) → ℕ → Token → RemotePool → Option Stream × RemotePool
unfolding pop_healthy
pop_idle try_read now token p = elim (p.pools token) [
  | none ↦ (none, p)
  | some idle ↦
      let (s, rest) = pop_healthy try_read now (from_secs p.config.pool_idle_timeout_secs) idle in
      (s, record p { pools = insert token rest p.pools })
]

-- `secs` of the dial; the sum of `u64` wraps.
pub dial_secs : PoolConfig → ℕ
dial_secs c =
    let secs = (c.pool_connect_timeout_ms + 999) % 2 ^ 64 / 1000 in if secs == 0 then 1 else secs

pub find_addr : Token → List (Token × RemoteAddr) → Option RemoteAddr
find_addr token [] = none
find_addr token ((t, a) ∷ peers) = if t == token then some a else find_addr token peers

-- A dial of an address within a number of seconds; `none` is an error. A token without an address
-- is an error too.
pub connect_new : (RemoteAddr → ℕ → Option Stream) → Token → RemotePool → Option Stream
unfolding dial_secs find_addr
connect_new connect token p = elim (find_addr token p.peer_addrs) [
  | none ↦ none
  | some addr ↦ connect addr (dial_secs p.config)
]

pub acquire :
    (Stream → TryRead)
    → (RemoteAddr → ℕ → Option Stream)
    → ℕ
    → Token
    → RemotePool
    → Option Stream × RemotePool
unfolding pop_idle connect_new
acquire try_read connect now token p =
    let (s, p') = pop_idle try_read now token p in
    elim s [ none ↦ (connect_new connect token p', p') | some stream ↦ (some stream, p') ]

-- A push to the stack of a peer, if the peer is registered.
pub store : ℕ → Token → Stream → RemotePool → RemotePool
unfolding push
store now token s p = elim (p.pools token) [
  | none ↦ p
  | some idle ↦ record p { pools = insert token (push now s p.config.pool_size idle) p.pools }
]

abbrev pub is_empty : List ℕ → Bool
is_empty [] = true
is_empty (c ∷ cs) = false

pub return_conn : (Stream → TryRead) → ℕ → Token → Stream → Bool → List ℕ → RemotePool → RemotePool
unfolding store is_conn_alive
return_conn try_read now token s relay_ok obfs p =
    if relay_ok
    then (if is_empty obfs
        then (if is_conn_alive try_read s then store now token s p else p)
        else p)
    else p

pub len_of : Token → RemotePool → ℕ
len_of token p = elim (p.pools token) [ none ↦ 0 | some idle ↦ length idle ]

-- A connection that the warm-up task has dialled: pushed unless the stack has filled meanwhile.
pub keep_dialled : ℕ → Token → Stream → RemotePool → RemotePool
unfolding push
keep_dialled now token s p = elim (p.pools token) [
  | none ↦ p
  | some idle ↦
      if ltb (length idle) p.config.pool_size
      then record p { pools = insert token (push now s p.config.pool_size idle) p.pools }
      else p
]

-- The rounds for one peer, where the dial numbered `k` ends at the time `now k`; an error ends them.
pub warm_rounds :
    (ℕ → RemoteAddr → ℕ → Option Stream) → (ℕ → ℕ) → Token → ℕ → ℕ → RemotePool → RemotePool
unfolding keep_dialled connect_new
warm_rounds connect now token k zero p = p
warm_rounds connect now token k (suc rounds) p = elim (connect_new (connect k) token p) [
  | none ↦ p
  | some s ↦ warm_rounds connect now token (suc k) rounds (keep_dialled (now k) token s p)
]

pub warm_peer : (ℕ → RemoteAddr → ℕ → Option Stream) → (ℕ → ℕ) → Token → RemotePool → RemotePool
unfolding warm_rounds len_of
warm_peer connect now token p =
    warm_rounds connect now token 0 (p.config.pool_min_idle - len_of token p) p

-- One pass of the task over the peers.
pub warm_up :
    (Token → ℕ → RemoteAddr → ℕ → Option Stream)
    → (Token → ℕ → ℕ)
    → List (Token × RemoteAddr)
    → RemotePool
    → RemotePool
unfolding warm_peer
warm_up connect now [] p = p
warm_up connect now ((t, a) ∷ peers) p =
    warm_up connect now peers (warm_peer (connect t) (now t) t p)
