-- ===== src/Conf/Net/Build.antt =====
-- src/conf/net.rs and src/consts.rs: the options that are built of a network configuration, with the
-- defaults.
use bytehub.Prelude.{ℕ, Bool, false, Option, none, some, []}
use bytehub.Lb.Balancer.{Balancer}
use bytehub.Core.Options.{BindOpts, ConnectOpts}
use bytehub.Conf.Net.{NetConf}

abbrev pub tcp_keepalive : ℕ
tcp_keepalive = 15

abbrev pub tcp_keepalive_probe : ℕ
tcp_keepalive_probe = 3

abbrev pub tcp_timeout : ℕ
tcp_timeout = 5

abbrev pub udp_timeout : ℕ
udp_timeout = 30

abbrev pub proxy_protocol_version : ℕ
proxy_protocol_version = 2

abbrev pub proxy_protocol_timeout : ℕ
proxy_protocol_timeout = 5

pub record NetInfo (T : Type 0) : Type 0 where
  pub bind_opts : BindOpts
  pub conn_opts : ConnectOpts T
  pub no_tcp : Bool
  pub use_udp : Bool
  pub max_fails : Option ℕ
  pub fail_timeout : Option ℕ
  pub max_latency : Option ℕ
  pub probe_interval_secs : Option ℕ
  pub probe_unhealthy_interval_secs : Option ℕ
  pub probe_timeout_ms : Option ℕ
  pub pool_min_idle : Option ℕ

-- `unwrap_or`; `unbox!` without a value takes `false` for a flag.
abbrev pub unwrap_or : {A : Type 0} → Option A → A → A
unwrap_or none d = d
unwrap_or (some a) d = a

unfoldable pub build : {T : Type 0} → NetConf → NetInfo T
build c = record {
  bind_opts = record {
    ipv6_only = unwrap_or c.ipv6_only false;
    accept_mptcp = unwrap_or c.accept_mptcp false;
    bind_interface = none;
  };
  conn_opts = record {
    send_mptcp = unwrap_or c.send_mptcp false;
    connect_timeout = unwrap_or c.tcp_timeout tcp_timeout;
    associate_timeout = unwrap_or c.udp_timeout udp_timeout;
    tcp_keepalive = unwrap_or c.tcp_keepalive tcp_keepalive;
    tcp_keepalive_probe = unwrap_or c.tcp_keepalive_probe tcp_keepalive_probe;
    bind_address = none;
    bind_interface = none;
    obfs = [];
    proxy_opts = record {
      send_proxy = unwrap_or c.send_proxy false;
      accept_proxy = unwrap_or c.accept_proxy false;
      send_proxy_version = unwrap_or c.send_proxy_version proxy_protocol_version;
      accept_proxy_timeout = unwrap_or c.accept_proxy_timeout proxy_protocol_timeout;
    };
    transport = none;
    balancer = Balancer.off;
    probe_config = none;
    probe_targets = [];
    pool_config = none;
  };
  no_tcp = unwrap_or c.no_tcp false;
  use_udp = unwrap_or c.use_udp false;
  max_fails = c.max_fails;
  fail_timeout = c.fail_timeout;
  max_latency = c.max_latency;
  probe_interval_secs = c.probe_interval_secs;
  probe_unhealthy_interval_secs = c.probe_unhealthy_interval_secs;
  probe_timeout_ms = c.probe_timeout_ms;
  pool_min_idle = c.pool_min_idle;
}
