-- ===== src/Conf/Dns/Build.antt =====
-- src/conf/dns.rs: the options of the resolver as they are read from the command line, built and shown.
-- The defaults of the resolver library, the lookup of an address and the parser of a number are
-- parameters; `none` is a panic.
use Prim.Native.String.{String}
use mathlib.Core.Option
use bytehub.Prelude.{
  ℕ, Bool, true, false, ◌&&◌, Option, none, some, List, [], ◌∷◌, ◌++◌, ◌==◌, if◌then◌else◌, ◌>>=◌,
}
use bytehub.Prelude.Bytes.{bytes, ◌=?◌}
use bytehub.Prelude.Text.{split}
use bytehub.Lb.IpHash.{decimal}
use bytehub.Core.Options.{SocketAddr}
use bytehub.Conf.Fields.{is_none}
use bytehub.Conf.Net.Build.{unwrap_or}
use bytehub.Conf.Dns.{
  DnsMode, DnsProtocol, Protocol, DnsConf, protocols, mode_from_string, protocol_from_string,
  display_mode, display_protocol,
}

pub data LookupIpStrategy : Type 0 where
  ipv4_only ipv6_only ipv4_and_ipv6 ipv4_then_ipv6 ipv6_then_ipv4 : LookupIpStrategy

unfoldable pub strategy_of : DnsMode → LookupIpStrategy
strategy_of DnsMode.ipv4_only = LookupIpStrategy.ipv4_only
strategy_of DnsMode.ipv6_only = LookupIpStrategy.ipv6_only
strategy_of DnsMode.ipv4_and_ipv6 = LookupIpStrategy.ipv4_and_ipv6
strategy_of DnsMode.ipv4_then_ipv6 = LookupIpStrategy.ipv4_then_ipv6
strategy_of DnsMode.ipv6_then_ipv4 = LookupIpStrategy.ipv6_then_ipv4

-- The fields that the code sets; a duration is its seconds. The others stand in `more`.
pub record ResolverOpts (O : Type 0) : Type 0 where
  pub ip_strategy : LookupIpStrategy
  pub positive_min_ttl : Option ℕ
  pub positive_max_ttl : Option ℕ
  pub cache_size : ℕ
  pub more : O

-- A server that is added, with the answers of this one trusted and the other fields not set.
pub record NameServer : Type 0 where
  pub socket_addr : SocketAddr
  pub protocol : Protocol

-- `system` are the addresses of the name servers that the system has.
pub record Library (O : Type 0) : Type 0 where
  pub to_socket_addrs : List ℕ → Option (List SocketAddr)
  pub parse_u32 : List ℕ → Option ℕ
  pub parse_usize : List ℕ → Option ℕ
  pub default_strategy : LookupIpStrategy
  pub default_opts : ResolverOpts O
  pub system : List SocketAddr

-- `dedup` drops what equals the one before it.
pub same_addr : SocketAddr → SocketAddr → Bool
same_addr (a, p) (b, q) = a =? b && p == q

unfoldable pub dedup_from : SocketAddr → List SocketAddr → List SocketAddr
unfolding same_addr
dedup_from a [] = []
dedup_from a (b ∷ bs) = let rest = dedup_from b bs in if same_addr a b then rest else b ∷ rest

unfoldable pub dedup : List SocketAddr → List SocketAddr
unfolding dedup_from
dedup [] = []
dedup (a ∷ rest) = a ∷ dedup_from a rest

-- The protocol matches the default one.
unfoldable pub is_default : DnsProtocol → Bool
is_default DnsProtocol.tcp = false
is_default DnsProtocol.udp = false
is_default DnsProtocol.tcp_and_udp = true

-- The inner and the outer loop over `add_name_server`.
unfoldable pub add_protocols : SocketAddr → List Protocol → List NameServer → List NameServer
add_protocols a [] conf = conf
add_protocols a (p ∷ ps) conf =
    add_protocols a ps (conf ++ record { socket_addr = a; protocol = p } ∷ [])

unfoldable pub add_servers : List SocketAddr → List Protocol → List NameServer → List NameServer
unfolding add_protocols
add_servers [] ps conf = conf
add_servers (a ∷ rest) ps conf = add_servers rest ps (add_protocols a ps conf)

module _ {O : Type 0} (lib : Library O) where
  unfoldable pub build_opts : DnsConf → Option (ResolverOpts O)
  unfolding strategy_of
  build_opts c =
      if is_none c.mode && is_none c.min_ttl && is_none c.max_ttl && is_none c.cache_size
      then none
      else some (record lib.default_opts {
        ip_strategy = unwrap_or (Option.map strategy_of c.mode) lib.default_strategy;
        positive_min_ttl = c.min_ttl;
        positive_max_ttl = c.max_ttl;
        cache_size = unwrap_or c.cache_size lib.default_opts.cache_size;
      })

  -- The first address of each server.
  unfoldable pub first_addrs : List (List ℕ) → Option (List SocketAddr)
  first_addrs [] = some []
  first_addrs (s ∷ ss) = elim (lib.to_socket_addrs s) [
    | none ↦ none
    | some addrs ↦ elim addrs [ [] ↦ none | a ∷ _ ↦ do rest ← first_addrs ss; some (a ∷ rest) ]
  ]

  unfoldable pub servers : Option (List (List ℕ)) → Option (List SocketAddr)
  unfolding first_addrs dedup
  servers none = some (dedup lib.system)
  servers (some ss) = first_addrs ss

  unfoldable pub build : DnsConf → Option (Option (List NameServer) × Option (ResolverOpts O))
  build c =
      let protocol = unwrap_or c.protocol DnsProtocol.tcp_and_udp in
      if is_none c.nameservers && is_default protocol then some (none, build_opts c) else do
        addrs ← servers c.nameservers
        some (some (add_servers addrs (protocols protocol) []), build_opts c)

  -- `get` gives the value of an option on the command line.
  unfoldable pub from_cmd_args : (String → Option (List ℕ)) → DnsConf
  unfolding split
  from_cmd_args get = record {
    mode = Option.map mode_from_string (get "dns_mode");
    min_ttl = get "dns_min_ttl" >>= lib.parse_u32;
    max_ttl = get "dns_max_ttl" >>= lib.parse_u32;
    cache_size = get "dns_cache_size" >>= lib.parse_usize;
    protocol = Option.map protocol_from_string (get "dns_protocol");
    nameservers = Option.map (λ x. (split b',' x).0 ∷ (split b',' x).1) (get "dns_servers");
  }

-- `join(", ")`.
pub join : List (List ℕ) → List ℕ
join [] = []
join (x ∷ []) = x
join (x ∷ y ∷ rest) = x ++ b',' ∷ b' ' ∷ join (y ∷ rest)

pub display : DnsConf → List ℕ
unfolding join
display c =
    bytes "mode="
    ++ (display_mode (unwrap_or c.mode DnsMode.ipv4_and_ipv6)
        ++ (bytes ", protocol="
            ++ (display_protocol (unwrap_or c.protocol DnsProtocol.tcp_and_udp)
                ++ (bytes ", min-ttl="
                    ++ (decimal (unwrap_or c.min_ttl 0)
                        ++ (bytes ", max-ttl="
                            ++ (decimal (unwrap_or c.max_ttl 86400)
                                ++ (bytes ", cache-size="
                                    ++ (decimal (unwrap_or c.cache_size 32)
                                        ++ (bytes ", servers="
                                            ++ unwrap_or (Option.map join c.nameservers)
                                                (bytes "system")))))))))))
