-- ===== src/Core/Tcp/Pool/Tests.antt =====
-- Runs of bytehub_core/src/tcp/pool.rs at small inputs.
use Prim.Native.Nat.{min, max}
use bytehub.Prelude.{
  ℕ, ◌+◌, ◌≡◌, refl, Option, none, some, List, [], ◌∷◌, ◌==◌, if◌then◌else◌, arith,
}
use bytehub.Lb.{Token}
use bytehub.Core.Endpoint.{RemoteAddr}
use bytehub.Core.Tcp.Pool.{
  PoolConfig, default_config, IdleConn, Stream, TryRead, RemotePool, pop_healthy, new, warm_peer,
  len_of, keep_dialled, connect_new,
}
use bytehub.Core.Tcp.Pool.Pop.{IsPopped, pop_healthy-IsPopped}
use bytehub.Core.Tcp.Pool.Steps.{IsBounded, Step, Steps, new-IsBounded}
use bytehub.Core.Tcp.Pool.Warmup.{IsReachable, warm_peer-length}

-- The stream 1 has been closed by its peer; the others wait.
abbrev reads : Stream → TryRead
reads s = if s == 1 then TryRead.ready 0 else TryRead.would_block

abbrev stack : List IdleConn
stack =
    record { stream = 1; created_at = 90 }
    ∷ record { stream = 2; created_at = 80 }
    ∷ record { stream = 3; created_at = 70 }
    ∷ []

pop_healthy-IsPopped_example : IsPopped reads 100 50 stack (pop_healthy reads 100 50 stack)
pop_healthy-IsPopped_example = pop_healthy-IsPopped reads 100 50 stack

abbrev addr : RemoteAddr
addr = RemoteAddr.socket_addr (10 ∷ 0 ∷ 0 ∷ 1 ∷ []) 80

abbrev peers : List (Token × RemoteAddr)
peers = (0, addr) ∷ []

-- One connection at most, and two that are dialled at the same time.
abbrev one : PoolConfig
one = record default_config { pool_size = 1 }

abbrev after_two : RemotePool
after_two = keep_dialled 6 0 8 (keep_dialled 5 0 7 (new one peers))

new-IsBounded_example : IsBounded after_two
new-IsBounded_example =
    new-IsBounded one peers after_two
      (Steps.step (Step.keep 5 0 7) (Steps.step (Step.keep 6 0 8) Steps.done))

-- A pool that holds one stream of the peer and wants three.
abbrev wanting : RemotePool
wanting = record {
  pools = λ t. if t == 0 then some (record { stream = 9; created_at = 0 } ∷ []) else none;
  config = record default_config { pool_min_idle = 3 };
  peer_addrs = peers;
}

abbrev dial : ℕ → RemoteAddr → ℕ → Option Stream
dial k a secs = some (100 + k)

wanting-IsReachable : IsReachable dial 0 wanting
unfolding connect_new
wanting-IsReachable k = (100 + k, refl)

warm_peer-length_example : len_of 0 (warm_peer dial (λ k. k) 0 wanting) ≡ min (max 1 3) 1024
warm_peer-length_example =
    warm_peer-length dial (λ k. k) 0 wanting (record { stream = 9; created_at = 0 } ∷ [])
      wanting-IsReachable refl (omega arith)
