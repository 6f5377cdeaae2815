-- ===== src/Core/Tcp/Proxy/Made.antt =====
-- What is made of two addresses, and read of it again.
use bytehub.Prelude.{
  ℕ, ◌≤◌, ◌≡◌, ◌≢◌, ◌⊎◌, inl, inr, refl, subst, Bool, true, false, Option, some, List, ◌++◌, ◌==◌,
  if◌then◌else◌, length, arith,
}
use bytehub.Core.Tcp.Proxy.Headers.{
  SocketAddrV4, SocketAddrV6, SocketAddr, Addresses1, Addresses2, ProxyCommand,
  ProxyTransportProtocol, ProxyHeader, version1, version2, ok, panicked, unpack4, unpack6, is_ipv4,
  make_header_v1, make_header_v2, addresses_v2, make_header, handle_header, unspecified,
}

abbrev pub IsVersion : ℕ → Type 0
IsVersion v = (v ≡ 1) ⊎ (v ≡ 2)

pub is_ipv4-unspecified : (a : SocketAddr) → is_ipv4 a ≡ is_ipv4 (unspecified a)
unfolding is_ipv4 unspecified
is_ipv4-unspecified (SocketAddr.v4 a) = refl
is_ipv4-unspecified (SocketAddr.v6 a) = refl

-- A header in version 1 or 2 that is made of two addresses of one family is handled to these two
-- addresses.
pub handle_header-make_header :
    (client server : SocketAddr) (v : ℕ)
    → is_ipv4 client ≡ is_ipv4 server
    → IsVersion v
    → (h : ProxyHeader) × (make_header client server v ≡ ok h)
      × (handle_header h ≡ some (client, server))
unfolding make_header handle_header is_ipv4
handle_header-make_header (SocketAddr.v4 a) (SocketAddr.v4 b) v e (inl one) =
    (version1 (Addresses1.ipv4 a b), rw one refl, refl)
handle_header-make_header (SocketAddr.v4 a) (SocketAddr.v4 b) v e (inr two) = (
  version2 ProxyCommand.proxy ProxyTransportProtocol.stream (Addresses2.ipv4 a b),
  rw two refl,
  refl,
)
handle_header-make_header (SocketAddr.v6 a) (SocketAddr.v6 b) v e (inl one) =
    (version1 (Addresses1.ipv6 a b), rw one refl, refl)
handle_header-make_header (SocketAddr.v6 a) (SocketAddr.v6 b) v e (inr two) = (
  version2 ProxyCommand.proxy ProxyTransportProtocol.stream (Addresses2.ipv6 a b),
  rw two refl,
  refl,
)
handle_header-make_header (SocketAddr.v4 a) (SocketAddr.v6 b) v e w = absurd cc
handle_header-make_header (SocketAddr.v6 a) (SocketAddr.v4 b) v e w = absurd cc

pub make_header-panics :
    (client server : SocketAddr) (v : ℕ) → v ≢ 1 → v ≢ 2 → make_header client server v ≡ panicked
unfolding make_header
make_header-panics client server v h1 h2 = ground arith

ok-injective : {g h : ProxyHeader} → ok g ≡ ok h → g ≡ h
ok-injective e = cc

-- What holds of the four kinds of header that the code makes holds of each header that it makes.
module _ (P : ProxyHeader → Type 0)
    (one4 : (a b : SocketAddrV4) → P (version1 (Addresses1.ipv4 a b)))
    (one6 : (a b : SocketAddrV6) → P (version1 (Addresses1.ipv6 a b)))
    (two4 : (a b : SocketAddrV4)
      → P (version2 ProxyCommand.proxy ProxyTransportProtocol.stream (Addresses2.ipv4 a b)))
    (two6 : (a b : SocketAddrV6)
      → P (version2 ProxyCommand.proxy ProxyTransportProtocol.stream (Addresses2.ipv6 a b))) where
  v1-elim : (c d : SocketAddr) (h : ProxyHeader) → make_header_v1 c d ≡ ok h → P h
  unfolding make_header_v1 unpack4 unpack6 is_ipv4
  v1-elim (SocketAddr.v4 a) (SocketAddr.v4 b) h e = subst P (ok-injective e) (one4 a b)
  v1-elim (SocketAddr.v4 a) (SocketAddr.v6 b) h e = absurd cc
  v1-elim (SocketAddr.v6 a) (SocketAddr.v4 b) h e = absurd cc
  v1-elim (SocketAddr.v6 a) (SocketAddr.v6 b) h e = subst P (ok-injective e) (one6 a b)

  v2-elim : (c d : SocketAddr) (h : ProxyHeader) → make_header_v2 c d ≡ ok h → P h
  unfolding make_header_v2 addresses_v2 unpack4 unpack6 is_ipv4
  v2-elim (SocketAddr.v4 a) (SocketAddr.v4 b) h e = subst P (ok-injective e) (two4 a b)
  v2-elim (SocketAddr.v4 a) (SocketAddr.v6 b) h e = absurd cc
  v2-elim (SocketAddr.v6 a) (SocketAddr.v4 b) h e = absurd cc
  v2-elim (SocketAddr.v6 a) (SocketAddr.v6 b) h e = subst P (ok-injective e) (two6 a b)

  choose :
      (two one : Bool) (c d : SocketAddr) (h : ProxyHeader)
      → (if two then make_header_v2 c d else if one then make_header_v1 c d else panicked) ≡ ok h
      → P h
  choose true one c d h e = v2-elim c d h e
  choose false true c d h e = v1-elim c d h e
  choose false false c d h e = absurd cc

  pub make_header-elim :
      (c d : SocketAddr) (v : ℕ) (h : ProxyHeader) → make_header c d v ≡ ok h → P h
  unfolding make_header
  make_header-elim c d v h e = choose (v == 2) (v == 1) c d h e

-- What the crate promises of the headers that the code makes: they are encoded in 256 bytes at most, and
-- read back with any bytes after them.
pub record Codec (parse : List ℕ → Option (ProxyHeader × List ℕ))
    (encode : ProxyHeader → Option (List ℕ)) : Type 0 where
  pub encodes :
      (c s : SocketAddr) (v : ℕ) (h : ProxyHeader)
      → make_header c s v ≡ ok h
      → (bs : List ℕ) × (encode h ≡ some bs)
  pub length-encode :
      (c s : SocketAddr) (v : ℕ) (h : ProxyHeader) (bs : List ℕ)
      → make_header c s v ≡ ok h
      → encode h ≡ some bs
      → length bs ≤ 256
  pub parse-encode :
      (c s : SocketAddr) (v : ℕ) (h : ProxyHeader) (bs rest : List ℕ)
      → make_header c s v ≡ ok h
      → encode h ≡ some bs
      → parse (bs ++ rest) ≡ some (h, rest)
