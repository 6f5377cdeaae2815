-- ===== src/Core/Tcp/Proxy/Tests.antt =====
-- Runs of the PROXY protocol with a codec for the tests, whose headers are six numbers.
use bytehub.Prelude.{
  ℕ, ◌≤◌, ◌≡◌, ◌≢◌, ◌↔◌, inl, inr, refl, Bool, true, false, Option, none, some, List, [], ◌∷◌, ◌++◌,
  ◌==◌, if◌then◌else◌, length, arith,
}
use bytehub.Core.Tcp.Proxy.Headers.{
  SocketAddr, Addresses1, Addresses2, ProxyCommand, ProxyTransportProtocol, ProxyHeader, version1,
  version2, ok, panicked, ◌>>=◌, make_header, unspecified,
}
use bytehub.Core.Tcp.Proxy.Made.{Codec, make_header-elim}
use bytehub.Core.Tcp.Proxy.{ProxyOpts, in_time, accept_header, proxied}
use bytehub.Core.Tcp.Proxy.Handled.{proxied_panics_iff}
use bytehub.Core.Tcp.Proxy.Chain.{Hop, sockets, through, Names, through-delivers}

abbrev encode : ProxyHeader → Option (List ℕ)
encode (version1 (Addresses1.ipv4 s d)) = some (1 ∷ 4 ∷ s.ip ∷ s.port ∷ d.ip ∷ d.port ∷ [])
encode (version1 (Addresses1.ipv6 s d)) = some (1 ∷ 6 ∷ s.ip ∷ s.port ∷ d.ip ∷ d.port ∷ [])
encode (version2 ProxyCommand.proxy ProxyTransportProtocol.stream (Addresses2.ipv4 s d)) =
    some (2 ∷ 4 ∷ s.ip ∷ s.port ∷ d.ip ∷ d.port ∷ [])
encode (version2 ProxyCommand.proxy ProxyTransportProtocol.stream (Addresses2.ipv6 s d)) =
    some (2 ∷ 6 ∷ s.ip ∷ s.port ∷ d.ip ∷ d.port ∷ [])
encode _ = none

abbrev header_of : ℕ → ℕ → ℕ → ℕ → ℕ → ℕ → ProxyHeader
header_of t f a p b q =
    if t == 1
    then (if f == 4
        then version1 (Addresses1.ipv4 (record { ip = a; port = p }) (record { ip = b; port = q }))
        else version1 (Addresses1.ipv6 (record { ip = a; port = p }) (record { ip = b; port = q })))
    else (if f == 4
        then version2 ProxyCommand.proxy ProxyTransportProtocol.stream
            (Addresses2.ipv4 (record { ip = a; port = p }) (record { ip = b; port = q }))
        else version2 ProxyCommand.proxy ProxyTransportProtocol.stream
            (Addresses2.ipv6 (record { ip = a; port = p }) (record { ip = b; port = q })))

abbrev parse : List ℕ → Option (ProxyHeader × List ℕ)
parse (t ∷ f ∷ a ∷ p ∷ b ∷ q ∷ rest) = some (header_of t f a p b q, rest)
parse _ = none

-- What is asked of the bytes of one header.
abbrev IsCoded : ProxyHeader → Type 0
IsCoded h =
    (bs : List ℕ) × (encode h ≡ some bs)
    × (length bs ≤ 256)
    × ((rest : List ℕ) → parse (bs ++ rest) ≡ some (h, rest))

coded : (c d : SocketAddr) (v : ℕ) (h : ProxyHeader) → make_header c d v ≡ ok h → IsCoded h
coded =
    make_header-elim IsCoded (λ a b. (_, refl, omega arith, λ rest. refl))
      (λ a b. (_, refl, omega arith, λ rest. refl)) (λ a b. (_, refl, omega arith, λ rest. refl))
      (λ a b. (_, refl, omega arith, λ rest. refl))

codec : Codec parse encode
codec = record {
  encodes = λ c d v h made. let (bs, e, _, _) = coded c d v h made in (bs, e);
  length-encode = λ c d v h bs made e.
      let (bs', e', short, _) = coded c d v h made in
      let same : bs' ≡ bs = cc (e, e') in rw (← same) short;
  parse-encode = λ c d v h bs rest made e.
      let (bs', e', _, law) = coded c d v h made in
      let same : bs' ≡ bs = cc (e, e') in rw (← same) (law rest);
}

abbrev client : SocketAddr
client = SocketAddr.v4 (record { ip = 0x0a000001; port = 4000 })

-- Options that send headers of a version, and take them or not.
abbrev sending : Bool → ℕ → ProxyOpts
sending accepts v = record {
  send_proxy = true;
  accept_proxy = accepts;
  send_proxy_version = v;
  accept_proxy_timeout = 5;
}

abbrev hop : Bool → ℕ → SocketAddr → Hop
hop accepts v peer = record {
  opts = sending accepts v;
  arrived = some 300;
  arrived_after = 1;
  peer_addr = some peer;
  writable = true;
}

abbrev relay : SocketAddr
relay = SocketAddr.v4 (record { ip = 0x0a000002; port = 5000 })

short_enough :
    (v : ℕ) (bs : List ℕ) → Names parse encode client (unspecified client) v bs → length bs ≤ 300
short_enough v bs (h, made, e) =
    omega (arith, codec.length-encode client (unspecified client) v h bs made e)

-- Version 3 of a header is a panic.
proxied_panics_iff_example :
    (proxied parse encode (sending false 3) (sockets (hop false 3 client) (7 ∷ [])) ≡ panicked)
    ↔ (((p : SocketAddr) × (some client ≡ some p)) × (◌≢◌ {A = ℕ} 3 1) × (◌≢◌ {A = ℕ} 3 2))
unfolding sockets
proxied_panics_iff_example =
    proxied_panics_iff parse encode codec (sending false 3) (sockets (hop false 3 client) (7 ∷ []))
      refl refl

-- A relay that sends version 1, and one that takes it and sends version 2.
through-delivers_example :
    (through parse encode (hop false 1 client ∷ hop true 2 relay ∷ []) (7 ∷ 8 ∷ []) >>= λ out.
    accept_header parse encode (sending true 1) (sockets (hop true 1 relay) out))
    ≡ ok (some (client, unspecified client), sockets (hop true 1 relay) (7 ∷ 8 ∷ []))
unfolding in_time sockets
through-delivers_example =
    through-delivers parse encode codec client (hop false 1 client) (hop true 2 relay ∷ [])
      (hop true 1 relay) (7 ∷ 8 ∷ [])
      (record { plain = refl; sends = refl; version = inl refl; known = refl; ready = refl })
      (
        record {
          accepts = refl;
          sends = refl;
          version = inr refl;
          timely = refl;
          has_arrived = record { count = 300; at = refl; whole = short_enough };
          ready = refl;
        },
        tt,
      )
      (record { count = 300; at = refl; whole = short_enough }) refl
