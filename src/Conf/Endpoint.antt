-- ===== src/Conf/Endpoint.antt =====
-- src/conf/endpoint.rs: the endpoint that is built of its configuration. A text is its bytes, `none` is
-- a panic, and lower case is that of ASCII. The parsers of the standard library and of kaminari, and
-- the sort, are parameters.
pub mod Peers
mod Tests
use Prim.Native.Nat.{max}
use Prim.Native.String.{String}
use bytehub.Prelude.{
  ℕ, ◌/◌, Bool, true, false, not, ◌&&◌, Option, none, some, List, [], ◌∷◌, ◌==◌, if◌then◌else◌,
  ◌>>=◌,
}
use bytehub.Prelude.Bytes.{to_ascii_lowercase}
use bytehub.Prelude.Text.{trim, split_once, rsplit_once}
use bytehub.Lb.{HealthCheckConfig}
use bytehub.Lb.IpHash
use bytehub.Lb.Balancer.{Balancer, from_str, new, weights_of}
use bytehub.Core.Endpoint.{RemoteAddr, socket_addr, domain_name}
use bytehub.Core.Options.{SocketAddr, BindOpts, ConnectOpts, Endpoint}
use bytehub.Core.Tcp.Pool
use bytehub.Core.Tcp.Pool.{PoolConfig}
use bytehub.Core.Tcp.Probe.{ProbeConfig}
use bytehub.Conf.{EndpointConf}
use bytehub.Conf.Net
use bytehub.Conf.Net.Build
use bytehub.Conf.Net.Build.{NetInfo, unwrap_or}

-- What is used of the libraries. `to_socket_addrs` gives none for an error.
pub record Library (T : Type 0) : Type 0 where
  pub to_socket_addrs : List ℕ → Option (List SocketAddr)
  pub parse_socket_addr : List ℕ → Option SocketAddr
  pub parse_ip : List ℕ → Option (List ℕ)
  pub parse_u16 : List ℕ → Option ℕ
  pub parse_u8 : List ℕ → Option ℕ
  pub sort : List IpHash.Node → List IpHash.Node
  pub transport : Option (List ℕ) → Option (List ℕ) → Option T

pub record EndpointInfo (T : Type 0) : Type 0 where
  pub no_tcp : Bool
  pub use_udp : Bool
  pub endpoint : Endpoint T

-- `next().unwrap()`.
abbrev pub first : {A : Type 0} → List A → Option A
first [] = none
first (a ∷ more) = some a

-- `retain` without the brackets.
unfoldable pub without_brackets : List ℕ → List ℕ
without_brackets [] = []
without_brackets (c ∷ cs) =
    let rest = without_brackets cs in if not (c == b'[') && not (c == b']') then c ∷ rest else rest

abbrev pub health_config : Option ℕ → Option ℕ → Option ℕ → Option HealthCheckConfig
health_config (some m) (some t) latency =
    some (record { max_fails = m; fail_timeout_secs = t; max_latency_ms = latency })
health_config (some m) none latency = none
health_config none t latency = none

module _ {T : Type 0} (lib : Library T) where
  unfoldable pub build_local : EndpointConf → Option SocketAddr
  build_local c = do addrs ← lib.to_socket_addrs c.listen; first addrs

  -- `rsplitn(2, ':')`: the port behind the last colon, and the name before it.
  unfoldable pub build_remote_x : List ℕ → Option RemoteAddr
  build_remote_x remote = elim (lib.parse_socket_addr remote) [
    | some (ip, port) ↦ some (socket_addr ip port)
    | none ↦ do
      (host, text) ← rsplit_once b':' remote
      port ← lib.parse_u16 text
      some (domain_name host port)
  ]

  -- The iterations over the texts of the remotes, and of the targets of the probe.
  unfoldable pub build_each : List (List ℕ) → Option (List RemoteAddr)
  unfolding build_remote_x
  build_each [] = some []
  build_each (r ∷ rs) = do a ← build_remote_x r; more ← build_each rs; some (a ∷ more)

  unfoldable pub build_send_through : EndpointConf → Option (Option SocketAddr)
  unfolding without_brackets
  build_send_through c = elim c.through [
    | none ↦ some none
    | some through ↦ elim (lib.to_socket_addrs through) [
      | some addrs ↦ elim (first addrs) [ none ↦ none | some a ↦ some (some a) ]
      | none ↦ elim (lib.parse_ip (without_brackets through)) [
        | none ↦ some none
        | some ip ↦ some (some (ip, 0))
      ]
    ]
  ]

  -- The strategy and the weights; without a colon there are no weights.
  unfoldable pub build_balancer : EndpointConf → Option ℕ → Option ℕ → Option ℕ → Option Balancer
  build_balancer c max_fails fail_timeout max_latency = elim c.balance [
    | none ↦ some Balancer.off
    | some s ↦
        let (strategy, weights) = unwrap_or (split_once b':' s) (s, []) in
        do
          chosen ← from_str (trim strategy)
          new lib.sort chosen (weights_of lib.parse_u8 weights)
              (health_config max_fails fail_timeout max_latency)
  ]

  unfoldable pub build_probe : NetInfo T → Option ProbeConfig
  build_probe net = elim net.probe_interval_secs [
    | none ↦ none
    | some interval ↦ some (record {
      probe_interval_secs = interval;
      probe_unhealthy_interval_secs =
          unwrap_or net.probe_unhealthy_interval_secs (max (interval / 2) 3);
      probe_timeout_ms = unwrap_or net.probe_timeout_ms 3000;
      probe_max_fails = unwrap_or net.max_fails 2;
    })
  ]

  unfoldable pub build_pool : NetInfo T → PoolConfig
  build_pool net = record Pool.default_config {
    pool_min_idle = unwrap_or net.pool_min_idle Pool.default_config.pool_min_idle;
  }

  unfoldable pub build : EndpointConf → Option (EndpointInfo T)
  build c = do
    laddr ← build_local c
    raddr ← build_remote_x c.remote
    extra_raddrs ← build_each c.extra_remotes
    let net : NetInfo T = Build.build c.network
    balancer ← build_balancer c net.max_fails net.fail_timeout net.max_latency
    through ← build_send_through c
    probe_targets ← build_each c.probe_targets
    some (record {
      no_tcp = net.no_tcp;
      use_udp = net.use_udp;
      endpoint = record {
        laddr = laddr;
        raddr = raddr;
        bind_opts = record net.bind_opts { bind_interface = c.listen_interface };
        conn_opts = record net.conn_opts {
          balancer = balancer;
          transport = lib.transport c.listen_transport c.remote_transport;
          bind_address = through;
          bind_interface = c.interface;
          obfs = to_ascii_lowercase (unwrap_or c.obfs []);
          probe_config = build_probe net;
          probe_targets = probe_targets;
          pool_config = some (build_pool net);
        };
        extra_raddrs = extra_raddrs;
      };
    })

-- `get` gives the value of an option on the command line; an endpoint wants `local` and `remote`.
unfoldable pub from_cmd_args : (String → Option (List ℕ)) → Option EndpointConf
from_cmd_args get = do
  listen ← get "local"
  remote ← get "remote"
  some (record {
    listen = listen;
    remote = remote;
    extra_remotes = [];
    obfs = none;
    probe_targets = [];
    balance = none;
    through = get "through";
    interface = get "interface";
    listen_interface = get "listen_interface";
    listen_transport = get "listen_transport";
    remote_transport = get "remote_transport";
    network = Net.empty_conf;
  })
