-- ===== src/Conf/Tests.antt =====
-- Runs of src/conf at small inputs.
use bytehub.Prelude.{ℕ, ◌≡◌, true, none, some, [], ◌∷◌, map}
use bytehub.Prelude.Bytes.{bytes}
use bytehub.Conf.{
  EndpointConf, CmdOverride, FullConf, default_conf, apply_cmd_opts, apply_global_opts,
}
use bytehub.Conf.Net
use bytehub.Conf.Net.{NetConf}
use bytehub.Conf.Net.Laws.{layered}
use bytehub.Conf.Log
use bytehub.Conf.Log.{LogLevel, display_warn, from_string-display}
use bytehub.Conf.Dns
use bytehub.Conf.Dns.{
  DnsMode, display_ipv4_only, DnsProtocol, from_string-display_mode, is_empty_dns_iff,
}
use bytehub.Conf.Layers.{apply_opts-layered}

abbrev with_timeout : ℕ → NetConf
with_timeout n = record Net.empty_conf { tcp_timeout = some n }

abbrev endpoint : NetConf → EndpointConf
endpoint net = record {
  listen = bytes "0.0.0.0:80";
  remote = bytes "example.com:80";
  extra_remotes = [];
  obfs = none;
  probe_targets = [];
  balance = none;
  through = none;
  interface = none;
  listen_interface = none;
  listen_transport = none;
  remote_transport = none;
  network = net;
}

-- The global timeout is 1; one endpoint has its own.
abbrev conf : FullConf
conf = record default_conf {
  network = with_timeout 1;
  endpoints = endpoint (with_timeout 2) ∷ endpoint Net.empty_conf ∷ [];
}

abbrev opts : CmdOverride
opts = record {
  log = Log.empty_conf;
  dns = Dns.empty_conf;
  network = record Net.empty_conf { use_udp = some true };
}

apply_opts-layered_example :
    (apply_cmd_opts (apply_global_opts conf) opts).endpoints
    ≡ map
        (λ (x : EndpointConf). record x { network = layered opts.network x.network conf.network })
        conf.endpoints
apply_opts-layered_example = apply_opts-layered conf opts

abbrev over_tcp : Dns.DnsConf
over_tcp = record Dns.empty_conf { protocol = some DnsProtocol.tcp }
