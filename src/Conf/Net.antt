-- ===== src/Conf/Net.antt =====
-- src/conf/net.rs: the network options. A `usize`, a `u32` and a `u64` are numbers; the parameters of
-- the command line (clap's matches and the parsers of the standard library) are arguments.
pub mod Laws
pub mod Build
use Prim.Native.String.{String}
use bytehub.Prelude.{ℕ, Bool, true, false, ◌&&◌, Option, none, some, if◌then◌else◌}
use bytehub.Conf.Fields.{rst, take, is_none}

pub record NetConf : Type 0 where
  pub no_tcp : Option Bool
  pub use_udp : Option Bool
  pub ipv6_only : Option Bool
  pub send_mptcp : Option Bool
  pub accept_mptcp : Option Bool
  pub send_proxy : Option Bool
  pub accept_proxy : Option Bool
  pub send_proxy_version : Option ℕ
  pub accept_proxy_timeout : Option ℕ
  pub tcp_keepalive : Option ℕ
  pub tcp_keepalive_probe : Option ℕ
  pub tcp_timeout : Option ℕ
  pub udp_timeout : Option ℕ
  pub max_fails : Option ℕ
  pub fail_timeout : Option ℕ
  pub max_latency : Option ℕ
  pub probe_interval_secs : Option ℕ
  pub probe_unhealthy_interval_secs : Option ℕ
  pub probe_timeout_ms : Option ℕ
  pub pool_min_idle : Option ℕ

abbrev pub empty_conf : NetConf
empty_conf = record {
  no_tcp = none;
  use_udp = none;
  ipv6_only = none;
  send_mptcp = none;
  accept_mptcp = none;
  send_proxy = none;
  accept_proxy = none;
  send_proxy_version = none;
  accept_proxy_timeout = none;
  tcp_keepalive = none;
  tcp_keepalive_probe = none;
  tcp_timeout = none;
  udp_timeout = none;
  max_fails = none;
  fail_timeout = none;
  max_latency = none;
  probe_interval_secs = none;
  probe_unhealthy_interval_secs = none;
  probe_timeout_ms = none;
  pool_min_idle = none;
}

pub is_empty : NetConf → Bool
is_empty c =
    is_none c.no_tcp
    && is_none c.use_udp
    && is_none c.ipv6_only
    && is_none c.send_mptcp
    && is_none c.accept_mptcp
    && is_none c.send_proxy
    && is_none c.accept_proxy
    && is_none c.send_proxy_version
    && is_none c.accept_proxy_timeout
    && is_none c.tcp_keepalive
    && is_none c.tcp_keepalive_probe
    && is_none c.tcp_timeout
    && is_none c.udp_timeout
    && is_none c.max_fails
    && is_none c.fail_timeout
    && is_none c.max_latency
    && is_none c.probe_interval_secs
    && is_none c.probe_unhealthy_interval_secs
    && is_none c.probe_timeout_ms
    && is_none c.pool_min_idle

unfoldable pub rst_field : NetConf → NetConf → NetConf
rst_field c o = record {
  no_tcp = rst c.no_tcp o.no_tcp;
  use_udp = rst c.use_udp o.use_udp;
  ipv6_only = rst c.ipv6_only o.ipv6_only;
  send_mptcp = rst c.send_mptcp o.send_mptcp;
  accept_mptcp = rst c.accept_mptcp o.accept_mptcp;
  send_proxy = rst c.send_proxy o.send_proxy;
  accept_proxy = rst c.accept_proxy o.accept_proxy;
  send_proxy_version = rst c.send_proxy_version o.send_proxy_version;
  accept_proxy_timeout = rst c.accept_proxy_timeout o.accept_proxy_timeout;
  tcp_keepalive = rst c.tcp_keepalive o.tcp_keepalive;
  tcp_keepalive_probe = rst c.tcp_keepalive_probe o.tcp_keepalive_probe;
  tcp_timeout = rst c.tcp_timeout o.tcp_timeout;
  udp_timeout = rst c.udp_timeout o.udp_timeout;
  max_fails = rst c.max_fails o.max_fails;
  fail_timeout = rst c.fail_timeout o.fail_timeout;
  max_latency = rst c.max_latency o.max_latency;
  probe_interval_secs = rst c.probe_interval_secs o.probe_interval_secs;
  probe_unhealthy_interval_secs =
      rst c.probe_unhealthy_interval_secs o.probe_unhealthy_interval_secs;
  probe_timeout_ms = rst c.probe_timeout_ms o.probe_timeout_ms;
  pool_min_idle = rst c.pool_min_idle o.pool_min_idle;
}

unfoldable pub take_field : NetConf → NetConf → NetConf
take_field c o = record {
  no_tcp = take c.no_tcp o.no_tcp;
  use_udp = take c.use_udp o.use_udp;
  ipv6_only = take c.ipv6_only o.ipv6_only;
  send_mptcp = take c.send_mptcp o.send_mptcp;
  accept_mptcp = take c.accept_mptcp o.accept_mptcp;
  send_proxy = take c.send_proxy o.send_proxy;
  accept_proxy = take c.accept_proxy o.accept_proxy;
  send_proxy_version = take c.send_proxy_version o.send_proxy_version;
  accept_proxy_timeout = take c.accept_proxy_timeout o.accept_proxy_timeout;
  tcp_keepalive = take c.tcp_keepalive o.tcp_keepalive;
  tcp_keepalive_probe = take c.tcp_keepalive_probe o.tcp_keepalive_probe;
  tcp_timeout = take c.tcp_timeout o.tcp_timeout;
  udp_timeout = take c.udp_timeout o.udp_timeout;
  max_fails = take c.max_fails o.max_fails;
  fail_timeout = take c.fail_timeout o.fail_timeout;
  max_latency = take c.max_latency o.max_latency;
  probe_interval_secs = take c.probe_interval_secs o.probe_interval_secs;
  probe_unhealthy_interval_secs =
      take c.probe_unhealthy_interval_secs o.probe_unhealthy_interval_secs;
  probe_timeout_ms = take c.probe_timeout_ms o.probe_timeout_ms;
  pool_min_idle = take c.pool_min_idle o.pool_min_idle;
}

-- What the program uses of clap's matches, with the parsers of the standard library.
pub record ArgMatches : Type 0 where
  pub get_flag : String → Bool
  pub get_usize : String → Option ℕ
  pub get_bool : String → Option Bool

abbrev flag : ArgMatches → String → Option Bool
flag m key = if m.get_flag key then some true else none

unfoldable pub from_cmd_args : ArgMatches → NetConf
from_cmd_args m = record empty_conf {
  no_tcp = flag m "no_tcp";
  use_udp = flag m "use_udp";
  ipv6_only = flag m "ipv6_only";
  send_mptcp = flag m "use_mptcp";
  accept_mptcp = flag m "use_mptcp";
  tcp_keepalive = m.get_usize "tcp_keepalive";
  tcp_keepalive_probe = m.get_usize "tcp_keepalive";
  tcp_timeout = m.get_usize "tcp_timeout";
  udp_timeout = m.get_usize "udp_timeout";
  send_proxy = m.get_bool "send_proxy";
  send_proxy_version = m.get_usize "send_proxy_version";
  accept_proxy = m.get_bool "accept_proxy";
  accept_proxy_timeout = m.get_usize "accept_proxy_timeout";
}
