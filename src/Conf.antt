-- ===== src/Conf.antt =====
-- src/conf/mod.rs: the whole configuration, and the layers that its options come from: the command
-- line over the options of an endpoint over the global ones. A text is its bytes.
pub mod Fields
pub mod Net
pub mod Log
pub mod Dns
pub mod Layers
pub mod Legacy
pub mod Endpoint
mod Tests
use bytehub.Prelude.{ℕ, Option, List, [], ◌∷◌, ◌++◌, map}
use Net.{NetConf}
use Log.{LogConf}
use Dns.{DnsConf}

pub record EndpointConf : Type 0 where
  pub listen : List ℕ
  pub remote : List ℕ
  pub extra_remotes : List (List ℕ)
  pub obfs : Option (List ℕ)
  pub probe_targets : List (List ℕ)
  pub balance : Option (List ℕ)
  pub through : Option (List ℕ)
  pub interface : Option (List ℕ)
  pub listen_interface : Option (List ℕ)
  pub listen_transport : Option (List ℕ)
  pub remote_transport : Option (List ℕ)
  pub network : NetConf

pub record CmdOverride : Type 0 where
  pub log : LogConf
  pub dns : DnsConf
  pub network : NetConf

pub record FullConf : Type 0 where
  pub log : LogConf
  pub dns : DnsConf
  pub network : NetConf
  pub endpoints : List EndpointConf

abbrev pub default_conf : FullConf
default_conf = record {
  log = Log.empty_conf;
  dns = Dns.empty_conf;
  network = Net.empty_conf;
  endpoints = [];
}

pub take_fields : FullConf → FullConf → FullConf
take_fields c o = record {
  log = Log.take_field c.log o.log;
  dns = Dns.take_field c.dns o.dns;
  network = Net.take_field c.network o.network;
  endpoints = c.endpoints ++ o.endpoints;
}

unfoldable pub add_endpoint : FullConf → EndpointConf → FullConf
add_endpoint c e = record c { endpoints = c.endpoints ++ e ∷ [] }

unfoldable pub apply_cmd_opts : FullConf → CmdOverride → FullConf
apply_cmd_opts c opts = record c {
  log = Log.rst_field c.log opts.log;
  dns = Dns.rst_field c.dns opts.dns;
  endpoints =
      map (λ (x : EndpointConf). record x { network = Net.rst_field x.network opts.network })
        c.endpoints;
}

unfoldable pub apply_global_opts : FullConf → FullConf
apply_global_opts c = record c {
  endpoints =
      map (λ (x : EndpointConf). record x { network = Net.take_field x.network c.network })
        c.endpoints;
}

-- `from_conf_file` on a directory, from the parsed files in the order of the walk.
pub from_conf_parts : FullConf → List FullConf → FullConf
unfolding take_fields
from_conf_parts c [] = c
from_conf_parts c (o ∷ os) = from_conf_parts (take_fields c o) os
