-- ===== src/Conf/Dns.antt =====
-- src/conf/dns.rs: the options of the resolver. A text is its bytes.
pub mod Build
pub mod Servers
pub mod Tests
use bytehub.Prelude.{
  ℕ, ◌≡◌, ◌↔◌, arith, refl, Bool, true, ◌&&◌, Option, none, List, [], ◌∷◌, if◌then◌else◌,
}
use bytehub.Prelude.Bytes.{bytes, ◌=?◌, to_ascii_lowercase}
use bytehub.Conf.Fields.{rst, take, is_none, take-take}

pub data DnsMode : Type 0 where
  ipv4_only ipv6_only ipv4_and_ipv6 ipv4_then_ipv6 ipv6_then_ipv4 : DnsMode

pub display_mode : DnsMode → List ℕ
display_mode DnsMode.ipv4_only = bytes "ipv4_only"
display_mode DnsMode.ipv6_only = bytes "ipv6_only"
display_mode DnsMode.ipv4_and_ipv6 = bytes "ipv4_and_ipv6"
display_mode DnsMode.ipv4_then_ipv6 = bytes "ipv4_then_ipv6"
display_mode DnsMode.ipv6_then_ipv4 = bytes "ipv6_then_ipv4"

pub mode_from_string : List ℕ → DnsMode
mode_from_string x =
    let s = to_ascii_lowercase x in
    if s =? bytes "ipv4_only"
    then DnsMode.ipv4_only
    else if s =? bytes "ipv6_only"
    then DnsMode.ipv6_only
    else if s =? bytes "ipv4_and_ipv6"
    then DnsMode.ipv4_and_ipv6
    else if s =? bytes "ipv4_then_ipv6"
    then DnsMode.ipv4_then_ipv6
    else if s =? bytes "ipv6_then_ipv4"
    then DnsMode.ipv6_then_ipv4
    else DnsMode.ipv4_and_ipv6

pub data DnsProtocol : Type 0 where
  tcp udp tcp_and_udp : DnsProtocol

pub display_protocol : DnsProtocol → List ℕ
display_protocol DnsProtocol.tcp = bytes "tcp"
display_protocol DnsProtocol.udp = bytes "udp"
display_protocol DnsProtocol.tcp_and_udp = bytes "tcp+udp"

pub protocol_from_string : List ℕ → DnsProtocol
protocol_from_string x =
    let s = to_ascii_lowercase x in
    if s =? bytes "tcp"
    then DnsProtocol.tcp
    else if s =? bytes "udp"
    then DnsProtocol.udp
    else DnsProtocol.tcp_and_udp

pub data Protocol : Type 0 where
  tcp udp : Protocol

pub protocols : DnsProtocol → List Protocol
protocols DnsProtocol.tcp = Protocol.tcp ∷ []
protocols DnsProtocol.udp = Protocol.udp ∷ []
protocols DnsProtocol.tcp_and_udp = Protocol.tcp ∷ Protocol.udp ∷ []

pub record DnsConf : Type 0 where
  pub mode : Option DnsMode
  pub min_ttl : Option ℕ
  pub max_ttl : Option ℕ
  pub cache_size : Option ℕ
  pub protocol : Option DnsProtocol
  pub nameservers : Option (List (List ℕ))

abbrev pub empty_conf : DnsConf
empty_conf = record {
  mode = none;
  min_ttl = none;
  max_ttl = none;
  cache_size = none;
  protocol = none;
  nameservers = none;
}

-- The protocol and the name servers are not looked at.
pub is_empty : DnsConf → Bool
is_empty c = is_none c.mode && is_none c.min_ttl && is_none c.max_ttl && is_none c.cache_size

unfoldable pub rst_field : DnsConf → DnsConf → DnsConf
rst_field c o = record {
  mode = rst c.mode o.mode;
  min_ttl = rst c.min_ttl o.min_ttl;
  max_ttl = rst c.max_ttl o.max_ttl;
  cache_size = rst c.cache_size o.cache_size;
  protocol = rst c.protocol o.protocol;
  nameservers = rst c.nameservers o.nameservers;
}

unfoldable pub take_field : DnsConf → DnsConf → DnsConf
take_field c o = record {
  mode = take c.mode o.mode;
  min_ttl = take c.min_ttl o.min_ttl;
  max_ttl = take c.max_ttl o.max_ttl;
  cache_size = take c.cache_size o.cache_size;
  protocol = take c.protocol o.protocol;
  nameservers = take c.nameservers o.nameservers;
}

-- A mode and a protocol are read back from what they are shown as, in any case of the letters; the
-- protocol also where it is the default that any other word stands for.
pub from_string-display_mode :
    (m : DnsMode) (s : List ℕ) → to_ascii_lowercase s ≡ display_mode m → mode_from_string s ≡ m
unfolding mode_from_string display_mode
from_string-display_mode DnsMode.ipv4_only s e = rw e refl
from_string-display_mode DnsMode.ipv6_only s e = rw e refl
from_string-display_mode DnsMode.ipv4_and_ipv6 s e = rw e refl
from_string-display_mode DnsMode.ipv4_then_ipv6 s e = rw e refl
from_string-display_mode DnsMode.ipv6_then_ipv4 s e = rw e refl

pub take_field_assoc :
    (a b c : DnsConf) → take_field (take_field a b) c ≡ take_field a (take_field b c)
unfolding take_field
take_field_assoc a b c = simp take-take

-- The options of the resolver count as empty exactly if those but the protocol and the name servers
-- are not set: options that set only these two are left out of a written configuration.
pub is_empty_dns_iff :
    (c : DnsConf)
    → (is_empty c ≡ true)
      ↔ (c ≡ record empty_conf { protocol = c.protocol; nameservers = c.nameservers })
unfolding is_empty
is_empty_dns_iff c = ground arith

-- What the mode `ipv4_only` is shown as.
pub display_ipv4_only : display_mode DnsMode.ipv4_only ≡ bytes "ipv4_only"
unfolding display_mode
display_ipv4_only = refl
