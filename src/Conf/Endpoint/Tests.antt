-- ===== src/Conf/Endpoint/Tests.antt =====
-- Runs of the builder of an endpoint, with parsers for the tests.
use bytehub.Lb.{HealthCheckConfig}
use bytehub.Prelude.{
  true, ◌↔◌, Option, ℕ, ◌≡◌, refl, false, none, some, List, [], ◌∷◌, get_or, arith,
}
use bytehub.Prelude.Bytes.{bytes}
use bytehub.Prelude.Text.{split_once, rsplit_once, trim}
use bytehub.Lb.IpHash.{decimal}
use bytehub.Lb.Balancer.{Strategy, from_str, new}
use bytehub.Lb.Balancer
use bytehub.Lb.Balancer.Written.{written}
use bytehub.Lb.Balancer.Digits.{parse_u8, parse_u8-IsParser}
use bytehub.Core.Endpoint.{domain_name, display}
use bytehub.Core.Tcp.Connect.{Env, select_addr}
use bytehub.Core.Tcp.Pool
use bytehub.Core.Tcp.Pool.{TryRead}
use bytehub.Conf.{EndpointConf}
use bytehub.Conf.Net
use bytehub.Conf.Net.Build
use bytehub.Conf.Endpoint.{
  Library, EndpointInfo, build_local, build_remote_x, build_each, build_balancer,
  build_send_through, build_probe, build_pool, build,
}
use bytehub.Conf.Endpoint.Peers.{
  build_remote_x-display, select_addr-build, build-balanced, AreChecks,
}

-- Every text is taken for a name, and a port has three digits at most.
abbrev library : Library ℕ
library = record {
  to_socket_addrs = λ s. some ((s, 80) ∷ []);
  parse_socket_addr = λ s. none;
  parse_ip = λ s. none;
  parse_u16 = parse_u8;
  parse_u8 = parse_u8;
  sort = λ ring. ring;
  transport = λ l r. none;
}

abbrev conf : EndpointConf
conf = record {
  listen = bytes "0.0.0.0:80";
  remote = bytes "a:80";
  extra_remotes = bytes "b:81" ∷ [];
  obfs = none;
  probe_targets = [];
  balance = some (written Strategy.off (4 ∷ 2 ∷ []));
  through = none;
  interface = none;
  listen_interface = none;
  listen_transport = none;
  remote_transport = none;
  network = Net.empty_conf;
}

abbrev show : List ℕ → ℕ → List ℕ
show ip port = ip

-- A name that holds colons.
build_remote_x-display_example :
    build_remote_x library (display show (domain_name (bytes "fe80::1") 80))
    ≡ some (domain_name (bytes "fe80::1") 80)
unfolding parse_u8 decimal
build_remote_x-display_example =
    build_remote_x-display library show (domain_name (bytes "fe80::1") 80) (refl, refl)

abbrev info : EndpointInfo ℕ
info = record {
  no_tcp = false;
  use_udp = false;
  endpoint = record {
    laddr = (bytes "0.0.0.0:80", 80);
    raddr = domain_name (bytes "a") 80;
    bind_opts = (Build.build {T = ℕ} Net.empty_conf).bind_opts;
    conn_opts = record (Build.build {T = ℕ} Net.empty_conf).conn_opts {
      pool_config = some Pool.default_config;
    };
    extra_raddrs = domain_name (bytes "b") 81 ∷ [];
  };
}

built : build library conf ≡ some info
unfolding build build_local build_each build_balancer build_send_through build_probe build_pool
    parse_u8 Build.build written decimal rsplit_once split_once from_str Balancer.display trim new
built = refl

abbrev env : Env
env = record {
  raddr = info.endpoint.raddr;
  extra_raddrs = info.endpoint.extra_raddrs;
  try_read = λ s. TryRead.would_block;
  now = λ k. k;
  dial = λ k a. none;
  elapsed_ms = λ k. 0;
  client_known = true;
  logged = λ k s. true;
}

select_addr-build_example :
    build_remote_x library (get_or (conf.remote ∷ conf.extra_remotes) 1 conf.remote)
    ≡ some (select_addr env (some 1))
select_addr-build_example = select_addr-build library conf info env 1 built refl refl

build-balanced_example :
    (checks : Option HealthCheckConfig) × (new (λ ring. ring) Strategy.off (4 ∷ 2 ∷ []) checks
      ≡ some info.endpoint.conn_opts.balancer)
    × ((cfg : HealthCheckConfig) → (checks ≡ some cfg) ↔ AreChecks conf.network cfg)
build-balanced_example =
    build-balanced library conf info Strategy.off (4 ∷ 2 ∷ []) parse_u8-IsParser (omega arith) refl
      built
