-- ===== src/Core/Tcp/Proxy/Headers.antt =====
-- bytehub_core/src/tcp/proxy.rs: the headers of the PROXY protocol and the addresses in them. The types
-- of the headers are those that the code uses of the crate proxy-protocol. An IP address is its number; the
-- flow and the scope of an IPv6 address are left out.

use bytehub.Prelude.{ℕ, Bool, true, false, Option, none, some, ◌==◌, if◌then◌else◌}

pub record SocketAddrV4 : Type 0 where
  pub ip : ℕ
  pub port : ℕ

pub record SocketAddrV6 : Type 0 where
  pub ip : ℕ
  pub port : ℕ

pub data SocketAddr : Type 0 where
  v4 : SocketAddrV4 → SocketAddr
  v6 : SocketAddrV6 → SocketAddr

-- `version1::ProxyAddresses`.
pub data Addresses1 : Type 0 where
  unknown : Addresses1
  ipv4 : SocketAddrV4 → SocketAddrV4 → Addresses1
  ipv6 : SocketAddrV6 → SocketAddrV6 → Addresses1

pub data ProxyCommand : Type 0 where
  local proxy : ProxyCommand

pub data ProxyTransportProtocol : Type 0 where
  unspec stream datagram : ProxyTransportProtocol

-- `version2::ProxyAddresses`.
pub data Addresses2 : Type 0 where
  unspec unix : Addresses2
  ipv4 : SocketAddrV4 → SocketAddrV4 → Addresses2
  ipv6 : SocketAddrV6 → SocketAddrV6 → Addresses2

-- The enumeration of the crate is open: `other` is any header of another version.
pub data ProxyHeader : Type 0 where
  version1 : Addresses1 → ProxyHeader
  version2 : ProxyCommand → ProxyTransportProtocol → Addresses2 → ProxyHeader
  other : ProxyHeader

-- `panicked` is a call of `unreachable!`.
pub data Result {ℓ} (A : Type ℓ) : Type ℓ where
  ok : A → Result A
  failed : Result A
  panicked : Result A

infixl 5 ◌>>=◌
abbrev pub ◌>>=◌ {ℓ κ} : {A : Type ℓ} {B : Type κ} → Result A → (A → Result B) → Result B
ok a >>= f = f a
failed >>= f = failed
panicked >>= f = panicked

-- An error of a call is passed on by `?`.
abbrev pub try {ℓ} : {A : Type ℓ} → Option A → Result A
try none = failed
try (some a) = ok a

-- `unpack!`.
unfoldable pub unpack4 : SocketAddr → Result SocketAddrV4
unpack4 (SocketAddr.v4 a) = ok a
unpack4 (SocketAddr.v6 a) = panicked

unfoldable pub unpack6 : SocketAddr → Result SocketAddrV6
unpack6 (SocketAddr.v4 a) = panicked
unpack6 (SocketAddr.v6 a) = ok a

unfoldable pub is_ipv4 : SocketAddr → Bool
is_ipv4 (SocketAddr.v4 a) = true
is_ipv4 (SocketAddr.v6 a) = false

unfoldable pub make_header_v1 : SocketAddr → SocketAddr → Result ProxyHeader
unfolding unpack4 unpack6 is_ipv4
make_header_v1 client server =
    if is_ipv4 client
    then (do s ← unpack4 client; d ← unpack4 server; ok (version1 (Addresses1.ipv4 s d)))
    else (do s ← unpack6 client; d ← unpack6 server; ok (version1 (Addresses1.ipv6 s d)))

unfoldable pub addresses_v2 : SocketAddr → SocketAddr → Result Addresses2
unfolding unpack4 unpack6 is_ipv4
addresses_v2 client server =
    if is_ipv4 client
    then (do s ← unpack4 client; d ← unpack4 server; ok (Addresses2.ipv4 s d))
    else (do s ← unpack6 client; d ← unpack6 server; ok (Addresses2.ipv6 s d))

unfoldable pub make_header_v2 : SocketAddr → SocketAddr → Result ProxyHeader
unfolding addresses_v2
make_header_v2 client server = do
  a ← addresses_v2 client server
  ok (version2 ProxyCommand.proxy ProxyTransportProtocol.stream a)

unfoldable pub make_header : SocketAddr → SocketAddr → ℕ → Result ProxyHeader
unfolding make_header_v1 make_header_v2
make_header client server version =
    if version == 2
    then make_header_v2 client server
    else if version == 1
    then make_header_v1 client server
    else panicked

unfoldable pub handle_header_v1 : Addresses1 → Option (SocketAddr × SocketAddr)
handle_header_v1 Addresses1.unknown = none
handle_header_v1 (Addresses1.ipv4 s d) = some (SocketAddr.v4 s, SocketAddr.v4 d)
handle_header_v1 (Addresses1.ipv6 s d) = some (SocketAddr.v6 s, SocketAddr.v6 d)

-- The match at the end of `handle_header_v2`.
unfoldable pub addresses_of : Addresses2 → Option (SocketAddr × SocketAddr)
addresses_of (Addresses2.ipv4 s d) = some (SocketAddr.v4 s, SocketAddr.v4 d)
addresses_of (Addresses2.ipv6 s d) = some (SocketAddr.v6 s, SocketAddr.v6 d)
addresses_of Addresses2.unspec = none
addresses_of Addresses2.unix = none

unfoldable pub handle_header_v2 :
    ProxyCommand → ProxyTransportProtocol → Addresses2 → Option (SocketAddr × SocketAddr)
unfolding addresses_of
handle_header_v2 ProxyCommand.local proto a = none
handle_header_v2 ProxyCommand.proxy ProxyTransportProtocol.stream a = addresses_of a
handle_header_v2 ProxyCommand.proxy ProxyTransportProtocol.unspec a = none
handle_header_v2 ProxyCommand.proxy ProxyTransportProtocol.datagram a = none

unfoldable pub handle_header : ProxyHeader → Option (SocketAddr × SocketAddr)
unfolding handle_header_v1 handle_header_v2
handle_header (version1 a) = handle_header_v1 a
handle_header (version2 c p a) = handle_header_v2 c p a
handle_header other = none

-- The unspecified address of the client's family, with port 0.
unfoldable pub unspecified : SocketAddr → SocketAddr
unspecified (SocketAddr.v4 a) = SocketAddr.v4 (record { ip = 0; port = 0 })
unspecified (SocketAddr.v6 a) = SocketAddr.v6 (record { ip = 0; port = 0 })
