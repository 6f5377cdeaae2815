-- ===== src/Core/Tcp/Connect/Tests.antt =====
-- Runs of the retries of bytehub_core/src/tcp/middle.rs at small inputs.
use Prim.Native.Nat.{max}
use bytehub.Prelude.{ℕ, zero, suc, get_elem?, ◌<◌, ◌≡◌, refl, true, none, some, [], ◌∷◌, arith}
use bytehub.Lb.IpHash
use bytehub.Lb.IpHash.{IpHash}
use bytehub.Lb.RoundRobin
use bytehub.Lb.RoundRobin.{RoundRobin}
use bytehub.Lb.RoundRobin.Fairness.Share.{fresh}
use bytehub.Core.Endpoint.{RemoteAddr}
use bytehub.Core.Tcp.Pool
use bytehub.Core.Tcp.Pool.{TryRead, RemotePool, is_conn_alive}
use bytehub.Core.Tcp.Connect.{
  Balance, Env, State, Result, Outcome, start, announce, has, insert, try_connect_with_fallback,
  rounds, round, attempt, report, note, is_slow, go_on, is_exhausted, fall_back, select_addr,
}
use bytehub.Core.Tcp.Connect.Rounds.{Reached}
use bytehub.Core.Tcp.Connect.Ends.{IsEnd, try_connect-IsEnd}
use bytehub.Core.Tcp.Connect.Stuck.{ip_hash_balance, try_connect-stuck}
use bytehub.Core.Tcp.Connect.Turn.{round_robin_balance}
use bytehub.Core.Tcp.Connect.Turns.{try_connect-round_robin}
use bytehub.Core.Tcp.Connect.Weightless.{try_connect-weightless}

abbrev addr : RemoteAddr
addr = RemoteAddr.socket_addr (10 ∷ 0 ∷ 0 ∷ 1 ∷ []) 80

-- Every dial fails, and every connection of a pool is dead.
abbrev all_down : Env
all_down = record {
  raddr = addr;
  extra_raddrs = addr ∷ [];
  try_read = λ s. TryRead.failed;
  now = λ k. k;
  dial = λ k a. none;
  elapsed_ms = λ k. 1;
  client_known = true;
  logged = λ k s. true;
}

-- A balancer that gives out one peer after the other.
abbrev in_turn : Balance ℕ
in_turn = record {
  next = λ k s. (some s, s);
  on_failure = λ k s t. suc (max s t);
  total = 2;
  max_latency = none;
}

-- After the tokens 0 and 1.
abbrev both_tried : State ℕ
both_tried = record {
  token = some 1;
  tried = 1 ∷ 0 ∷ [];
  fallback = none;
  balancer = 2;
  pool = none;
}

both_fail : try_connect_with_fallback in_turn all_down 2 0 none ≡ some (Result.error, both_tried)
unfolding try_connect_with_fallback start announce rounds round attempt report note insert has
    is_slow go_on is_exhausted fall_back select_addr
both_fail = refl

try_connect-IsEnd_example :
    IsEnd in_turn all_down (start in_turn all_down 0 none) Result.error both_tried
try_connect-IsEnd_example =
    try_connect-IsEnd in_turn all_down 2 0 none both_tried Result.error refl both_fail

abbrev place : IpHash.Node
place = record { hash = 10; token = 1 }

abbrev hash_ring : IpHash
hash_ring = record {
  nodes = place ∷ [];
  backends = IpHash.healthy ∷ IpHash.healthy ∷ [];
  total = 2;
  config = none;
}

-- A connection to the peer that the hash gives, which is dead.
abbrev pool : RemotePool
pool = record {
  pools = λ t. some (record { stream = 7; created_at = 0 } ∷ []);
  config = Pool.default_config;
  peer_addrs = [];
}

try_connect-stuck_example :
    (try_connect_with_fallback (ip_hash_balance hash_ring 0) all_down 100 hash_ring (some pool)
      ≡ none)
    × ((st st' : State IpHash) × Reached
          (ip_hash_balance hash_ring 0)
          all_down
          (start (ip_hash_balance hash_ring 0) all_down hash_ring (some pool))
          9
          st
        × (st.token ≡ some 1)
        × (round (ip_hash_balance hash_ring 0) all_down 9 st ≡ Outcome.again st')
        × (st'.token ≡ some 1)
        × (st'.tried ≡ 1 ∷ []))
unfolding is_conn_alive
try_connect-stuck_example =
    try_connect-stuck hash_ring 0 place all_down (some pool) refl refl (omega arith) refl
      (λ s. refl) (λ k a. refl) 100 9

new_12 : RoundRobin.new (1 ∷ 2 ∷ []) none ≡ some (fresh (1 ∷ 2 ∷ []))
unfolding RoundRobin.new
new_12 = refl

new_20 : RoundRobin.new (2 ∷ 0 ∷ []) none ≡ some (fresh (2 ∷ 0 ∷ []))
unfolding RoundRobin.new
new_20 = refl

heavy_12 : (i w : ℕ) → get_elem? (1 ∷ 2 ∷ []) i ≡ some w → 0 < w
heavy_12 zero w e = ground arith
heavy_12 (suc zero) w e = ground arith
heavy_12 (suc (suc i)) w e = absurd cc

try_connect-round_robin_example :
    (r : Result) × (st : State RoundRobin) × (try_connect_with_fallback
        (round_robin_balance 2)
        all_down
        3
        (fresh (1 ∷ 2 ∷ []))
        none
      ≡ some (r, st))
try_connect-round_robin_example =
    try_connect-round_robin (1 ∷ 2 ∷ []) (fresh (1 ∷ 2 ∷ [])) all_down none new_12 (omega arith)
      heavy_12 (omega arith)

try_connect-weightless_example :
    try_connect_with_fallback (round_robin_balance 2) all_down 100 (fresh (2 ∷ 0 ∷ [])) none ≡ none
try_connect-weightless_example =
    try_connect-weightless (2 ∷ 0 ∷ []) (fresh (2 ∷ 0 ∷ [])) all_down 1 100 new_20 refl
      (omega arith) refl (omega arith) (omega arith) (λ k a. refl)
