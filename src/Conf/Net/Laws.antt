-- ===== src/Conf/Net/Laws.antt =====
-- How the layers of the network options combine, for src/conf/net.rs.
use bytehub.Prelude.{◌≡◌, ◌↔◌, refl, true, Option, none, some, List, [], ◌∷◌, arith}
use bytehub.Conf.Fields.{rst, take, rst-take, take-take}
use bytehub.Conf.Net.{NetConf, rst_field, take_field, is_empty, empty_conf}

-- The first option of a list that is set.
abbrev pub first_set {ℓ} : {A : Type ℓ} → List (Option A) → Option A
first_set [] = none
first_set (none ∷ os) = first_set os
first_set (some x ∷ os) = some x

-- Every option from the command line `c`, or else of the endpoint `e`, or else global `g`.
pub layered : NetConf → NetConf → NetConf → NetConf
layered c e g = record {
  no_tcp = first_set (c.no_tcp ∷ e.no_tcp ∷ g.no_tcp ∷ []);
  use_udp = first_set (c.use_udp ∷ e.use_udp ∷ g.use_udp ∷ []);
  ipv6_only = first_set (c.ipv6_only ∷ e.ipv6_only ∷ g.ipv6_only ∷ []);
  send_mptcp = first_set (c.send_mptcp ∷ e.send_mptcp ∷ g.send_mptcp ∷ []);
  accept_mptcp = first_set (c.accept_mptcp ∷ e.accept_mptcp ∷ g.accept_mptcp ∷ []);
  send_proxy = first_set (c.send_proxy ∷ e.send_proxy ∷ g.send_proxy ∷ []);
  accept_proxy = first_set (c.accept_proxy ∷ e.accept_proxy ∷ g.accept_proxy ∷ []);
  send_proxy_version =
      first_set (c.send_proxy_version ∷ e.send_proxy_version ∷ g.send_proxy_version ∷ []);
  accept_proxy_timeout =
      first_set (c.accept_proxy_timeout ∷ e.accept_proxy_timeout ∷ g.accept_proxy_timeout ∷ []);
  tcp_keepalive = first_set (c.tcp_keepalive ∷ e.tcp_keepalive ∷ g.tcp_keepalive ∷ []);
  tcp_keepalive_probe =
      first_set (c.tcp_keepalive_probe ∷ e.tcp_keepalive_probe ∷ g.tcp_keepalive_probe ∷ []);
  tcp_timeout = first_set (c.tcp_timeout ∷ e.tcp_timeout ∷ g.tcp_timeout ∷ []);
  udp_timeout = first_set (c.udp_timeout ∷ e.udp_timeout ∷ g.udp_timeout ∷ []);
  max_fails = first_set (c.max_fails ∷ e.max_fails ∷ g.max_fails ∷ []);
  fail_timeout = first_set (c.fail_timeout ∷ e.fail_timeout ∷ g.fail_timeout ∷ []);
  max_latency = first_set (c.max_latency ∷ e.max_latency ∷ g.max_latency ∷ []);
  probe_interval_secs =
      first_set (c.probe_interval_secs ∷ e.probe_interval_secs ∷ g.probe_interval_secs ∷ []);
  probe_unhealthy_interval_secs = first_set (
      c.probe_unhealthy_interval_secs ∷ e.probe_unhealthy_interval_secs
      ∷ g.probe_unhealthy_interval_secs ∷ []);
  probe_timeout_ms = first_set (c.probe_timeout_ms ∷ e.probe_timeout_ms ∷ g.probe_timeout_ms ∷ []);
  pool_min_idle = first_set (c.pool_min_idle ∷ e.pool_min_idle ∷ g.pool_min_idle ∷ []);
}

rst-take-first_set {ℓ} :
    {A : Type ℓ} (c e g : Option A) → rst (take e g) c ≡ first_set (c ∷ e ∷ g ∷ [])
rst-take-first_set none none none = refl
rst-take-first_set none none (some x) = refl
rst-take-first_set none (some x) g = refl
rst-take-first_set (some x) e g = refl

pub rst_field-layered : (c e g : NetConf) → rst_field (take_field e g) c ≡ layered c e g
unfolding rst_field take_field layered
rst_field-layered c e g = simp rst-take-first_set

pub rst_field-take_field :
    (l g c : NetConf) → rst_field (take_field l g) c ≡ take_field (rst_field l c) g
unfolding rst_field take_field
rst_field-take_field l g c = simp rst-take

pub take_field-take_field :
    (a b c : NetConf) → take_field (take_field a b) c ≡ take_field a (take_field b c)
unfolding take_field
take_field-take_field a b c = simp take-take

-- The network options count as empty exactly if none of them is set, so that leaving them out of a
-- written configuration loses nothing.
pub is_empty_net_iff : (c : NetConf) → (is_empty c ≡ true) ↔ (c ≡ empty_conf)
unfolding is_empty
is_empty_net_iff c = ground arith
