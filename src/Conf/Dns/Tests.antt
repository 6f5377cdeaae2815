-- ===== src/Conf/Dns/Tests.antt =====
-- A run of the builder of the resolver's servers.
use bytehub.Prelude.{ℕ, ◌*◌, ◌+◌, ◌≡◌, refl, none, some, List, [], ◌∷◌, length, get_elem?}
use bytehub.Prelude.Bytes.{bytes}
use bytehub.Conf.Dns
use bytehub.Conf.Dns.{DnsConf, Protocol, DnsProtocol, protocols}
use bytehub.Conf.Dns.Build.{
  LookupIpStrategy, NameServer, Library, build, servers, first_addrs, add_servers, add_protocols,
  is_default, build_opts,
}
use bytehub.Conf.Dns.Servers.{server, build-servers}

-- Every text is looked up to itself.
abbrev pub library : Library ℕ
library = record {
  to_socket_addrs = λ s. some ((s, 53) ∷ []);
  parse_u32 = λ s. none;
  parse_usize = λ s. none;
  default_strategy = LookupIpStrategy.ipv4_then_ipv6;
  default_opts = record {
    ip_strategy = LookupIpStrategy.ipv4_then_ipv6;
    positive_min_ttl = none;
    positive_max_ttl = none;
    cache_size = 32;
    more = 0;
  };
  system = [];
}

abbrev two_servers : DnsConf
two_servers = record Dns.empty_conf { nameservers = some (bytes "a" ∷ bytes "b" ∷ []) }

abbrev four : List NameServer
four =
    server (bytes "a", 53) Protocol.tcp
    ∷ server (bytes "a", 53) Protocol.udp
    ∷ server (bytes "b", 53) Protocol.tcp
    ∷ server (bytes "b", 53) Protocol.udp
    ∷ []

built : build library two_servers ≡ some (some four, none)
unfolding build servers first_addrs add_servers add_protocols is_default build_opts protocols
built = refl

build-servers_example :
    (length four ≡ 2 * length (protocols DnsProtocol.tcp_and_udp))
    × (get_elem? four (1 * length (protocols DnsProtocol.tcp_and_udp) + 0)
        ≡ some (server (bytes "b", 53) Protocol.tcp))
unfolding protocols servers first_addrs
build-servers_example =
    build-servers library two_servers four none ((bytes "a", 53) ∷ (bytes "b", 53) ∷ []) built refl
      1 0 refl refl
