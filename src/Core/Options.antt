-- ===== src/Core/Options.antt =====
-- bytehub_core/src/endpoint.rs: the options of an endpoint. `T` stands for the transports of kaminari.
use bytehub.Prelude.{ℕ, Bool, Option, List}
use bytehub.Lb.Balancer.{Balancer}
use bytehub.Core.Endpoint.{RemoteAddr}
use bytehub.Core.Tcp.Pool.{PoolConfig}
use bytehub.Core.Tcp.Probe.{ProbeConfig}
use bytehub.Core.Tcp.Proxy.{ProxyOpts}

-- The bytes of an address, and the port.
abbrev pub SocketAddr : Type 0
SocketAddr = List ℕ × ℕ

pub record BindOpts : Type 0 where
  pub ipv6_only : Bool
  pub accept_mptcp : Bool
  pub bind_interface : Option (List ℕ)

pub record ConnectOpts (T : Type 0) : Type 0 where
  pub send_mptcp : Bool
  pub connect_timeout : ℕ
  pub associate_timeout : ℕ
  pub tcp_keepalive : ℕ
  pub tcp_keepalive_probe : ℕ
  pub bind_address : Option SocketAddr
  pub bind_interface : Option (List ℕ)
  pub obfs : List ℕ
  pub proxy_opts : ProxyOpts
  pub transport : Option T
  pub balancer : Balancer
  pub probe_config : Option ProbeConfig
  pub probe_targets : List RemoteAddr
  pub pool_config : Option PoolConfig

pub record Endpoint (T : Type 0) : Type 0 where
  pub laddr : SocketAddr
  pub raddr : RemoteAddr
  pub bind_opts : BindOpts
  pub conn_opts : ConnectOpts T
  pub extra_raddrs : List RemoteAddr
