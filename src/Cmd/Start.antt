-- ===== src/Cmd/Start.antt =====
-- What the program starts with where the command line names an endpoint, for src/bin.rs, src/cmd/mod.rs
-- and src/conf/mod.rs.
use bytehub.Prelude.{ℕ, none, List, []}
use bytehub.Cmd.{Matches}
use bytehub.Conf.{EndpointConf}
use bytehub.Conf.Net
use bytehub.Conf.Net.{NetConf}
use bytehub.Conf.Log
use bytehub.Conf.Dns
use bytehub.Conf.Dns.Build
use bytehub.Conf.Endpoint

-- The endpoint that a command line names.
abbrev pub named : Matches → List ℕ → List ℕ → NetConf → EndpointConf
named m local remote network = record {
  listen = local;
  remote = remote;
  extra_remotes = [];
  obfs = none;
  probe_targets = [];
  balance = none;
  through = m.get_one "through";
  interface = m.get_one "interface";
  listen_interface = m.get_one "listen_interface";
  listen_transport = m.get_one "listen_transport";
  remote_transport = m.get_one "remote_transport";
  network = network;
}
