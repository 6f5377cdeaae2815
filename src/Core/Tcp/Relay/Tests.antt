-- ===== src/Core/Tcp/Relay/Tests.antt =====
-- A connection that is relayed as in bytehub_core/src/tcp/middle.rs.
use bytehub.Prelude.{ℕ, suc, ◌≡◌, ◌↔◌, refl, true, false, none, some, [], ◌∷◌}
use bytehub.Core.Endpoint.{RemoteAddr}
use bytehub.Core.Tcp.Pool.{TryRead}
use bytehub.Core.Tcp.Connect
use bytehub.Core.Tcp.Connect.{Balance, Env}
use bytehub.Core.Tcp.Relay.{Course, Report, tell, connect_and_relay}
use bytehub.Core.Tcp.Relay.Served.{IsServed, connect_and_relay-report}

abbrev addr : RemoteAddr
addr = RemoteAddr.socket_addr (10 ∷ 0 ∷ 0 ∷ 1 ∷ []) 80

abbrev up : Env
up = record {
  raddr = addr;
  extra_raddrs = [];
  try_read = λ s. TryRead.would_block;
  now = λ k. k;
  dial = λ k a. some 5;
  elapsed_ms = λ k. 1;
  client_known = true;
  logged = λ k s. true;
}

-- The state counts the failures.
abbrev one_peer : Balance ℕ
one_peer = record {
  next = λ k s. (some 0, s);
  on_failure = λ k s t. suc s;
  total = 1;
  max_latency = some 100;
}

abbrev after : Connect.State ℕ
after = record { token = some 0; tried = []; fallback = none; balancer = 3; pool = none }

connected :
    Connect.try_connect_with_fallback one_peer up 2 3 none
    ≡ some (Connect.Result.ok 5 (some 0), after)
unfolding Connect.try_connect_with_fallback Connect.rounds Connect.round Connect.attempt
    Connect.is_slow Connect.select_addr Connect.start Connect.announce
connected = refl

-- A byte comes in the first microsecond, and none later within the limit.
abbrev late : Course
late = record { reads = 0 ∷ 200000 ∷ []; end = 300000; ok = true; wins = true }

connect_and_relay-report_example :
    (report : Report) × (connect_and_relay one_peer up
        (λ k s t. s)
        7
        false
        (λ s. true)
        (λ s. late)
        2
        3
        none
      ≡ some
          (true, tell one_peer up (λ k s t. s) 7 false (λ s. true) (λ s. late) (some 0) report 3))
    × ((report ≡ Report.success) ↔ IsServed late 100)
connect_and_relay-report_example =
    connect_and_relay-report one_peer up (λ k s t. s) 7 (λ s. true) (λ s. late) 2 3 none 5 0 after
      100 connected refl refl
