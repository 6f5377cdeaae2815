-- ===== src/Core/Tcp/Proxy/Chain.antt =====
-- Relays in a row, each the client of the next: what the headers say at the end of the row. After the
-- header a relay copies the bytes of its client.
use Prim.Native.Nat.{min}
use bytehub.Prelude.{
  ℕ, ◌≤◌, ◌≡◌, ◌∙◌, refl, Bool, true, false, Option, some, List, [], ◌∷◌, ◌++◌, length, arith,
}
use bytehub.Core.Tcp.Proxy.Headers.{
  SocketAddr, ProxyHeader, Result, ok, ◌>>=◌, is_ipv4, make_header, handle_header, unspecified,
}
use bytehub.Core.Tcp.Proxy.Made.{IsVersion, Codec, handle_header-make_header, is_ipv4-unspecified}
use bytehub.Core.Tcp.Proxy.{ProxyOpts, Sockets, in_time, accept_header, addresses, proxied}
use bytehub.Core.Tcp.Proxy.Handled.{
  accept_header_lem, send_header_lem, proxied-accept_header, proxied_sends,
}

-- A relay with what its sockets do on one connection.
pub record Hop : Type 0 where
  pub opts : ProxyOpts
  pub arrived : Option ℕ
  pub arrived_after : ℕ
  pub peer_addr : Option SocketAddr
  pub writable : Bool

unfoldable pub sockets : Hop → List ℕ → Sockets
sockets hop bs = record {
  incoming = bs;
  arrived = hop.arrived;
  arrived_after = hop.arrived_after;
  peer_addr = hop.peer_addr;
  sent = [];
  writable = hop.writable;
}

module _ (parse : List ℕ → Option (ProxyHeader × List ℕ))
    (encode : ProxyHeader → Option (List ℕ)) where
  -- What the remote of a relay gets, from what the client sends.
  unfoldable pub forward : Hop → List ℕ → Result (List ℕ)
  unfolding sockets
  forward hop bs = do s ← proxied parse encode hop.opts (sockets hop bs); ok (s.sent ++ s.incoming)

  unfoldable pub through : List Hop → List ℕ → Result (List ℕ)
  unfolding forward
  through [] bs = ok bs
  through (hop ∷ hops) bs = do out ← forward hop bs; through hops out

  -- The bytes are a header with these addresses in this version.
  abbrev pub Names : SocketAddr → SocketAddr → ℕ → List ℕ → Type 0
  Names c d v bs = (h : ProxyHeader) × (make_header c d v ≡ ok h) × (encode h ≡ some bs)

  -- In the buffer of the socket stands at least a whole header with these addresses.
  pub record HasArrived (c d : SocketAddr) (hop : Hop) : Type 0 where
    pub count : ℕ
    pub at : hop.arrived ≡ some count
    pub whole : (v : ℕ) (bs : List ℕ) → Names c d v bs → length bs ≤ count

  -- A relay that takes a header and sends one, and whose sockets do not fail.
  pub record IsForwarder (c d : SocketAddr) (hop : Hop) : Type 0 where
    pub accepts : hop.opts.accept_proxy ≡ true
    pub sends : hop.opts.send_proxy ≡ true
    pub version : IsVersion hop.opts.send_proxy_version
    pub timely : in_time hop.opts (sockets hop []) ≡ true
    pub has_arrived : HasArrived c d hop
    pub ready : hop.writable ≡ true

  abbrev pub AreForwarders : SocketAddr → SocketAddr → List Hop → Type 0
  AreForwarders c d [] = Unit {0}
  AreForwarders c d (hop ∷ hops) = IsForwarder c d hop × AreForwarders c d hops

  module _ (codec : Codec parse encode) (c d : SocketAddr) (family : is_ipv4 c ≡ is_ipv4 d) where
    make_Names : (v : ℕ) → IsVersion v → (bs : List ℕ) × Names c d v bs
    make_Names v w =
        let (h, made, back) = handle_header-make_header c d v family w in
        let (bs, coded) = codec.encodes c d v h made in (bs, (h, made, coded))

    -- A header that has arrived whole is taken for the addresses that it names.
    pub accept_header-Names :
        (hop : Hop) (v : ℕ) (bs payload : List ℕ)
        → HasArrived c d hop
        → in_time hop.opts (sockets hop []) ≡ true
        → IsVersion v
        → Names c d v bs
        → accept_header parse encode hop.opts (sockets hop (bs ++ payload))
          ≡ ok (some (c, d), sockets hop payload)
    unfolding sockets in_time
    accept_header-Names hop v bs payload a timely w (h, made, coded) =
        let (h', made', back) = handle_header-make_header c d v family w in
        let same : handle_header h ≡ some (c, d) = cc (made, made', back) in
        let short : length bs ≤ min 256 a.count =
          omega (arith, codec.length-encode c d v h bs made coded, a.whole v bs (h, made, coded)) in
        accept_header_lem parse encode hop.opts (sockets hop (bs ++ payload)) a.count bs payload h
          timely a.at refl short (λ more. codec.parse-encode c d v h bs more made coded)
        ∙ rw same refl

    forward-Names :
        (hop : Hop) (v : ℕ) (bs payload : List ℕ)
        → IsForwarder c d hop
        → IsVersion v
        → Names c d v bs
        → (bs' : List ℕ) × Names c d hop.opts.send_proxy_version bs'
          × (forward hop (bs ++ payload) ≡ ok (bs' ++ payload))
    unfolding forward addresses sockets
    forward-Names hop v bs payload f w named =
        let (bs', (h, made, coded)) = make_Names hop.opts.send_proxy_version f.version in
        let taken = accept_header-Names hop v bs payload f.has_arrived f.timely w named in
        let sent =
          send_header_lem parse encode hop.opts (some (c, d)) (sockets hop payload) c d h bs'
            f.ready refl made coded in
        let both =
          proxied-accept_header parse encode hop.opts (sockets hop (bs ++ payload)) f.accepts
            f.sends in
        (bs', (h, made, coded), rw (both, taken, sent) refl)

    through-Names :
        (hops : List Hop) (v : ℕ) (bs payload : List ℕ)
        → AreForwarders c d hops
        → IsVersion v
        → Names c d v bs
        → (v' : ℕ) × (bs' : List ℕ) × IsVersion v'
          × Names c d v' bs'
          × (through hops (bs ++ payload) ≡ ok (bs' ++ payload))
    unfolding through
    through-Names [] v bs payload fs w named = (v, bs, w, named, refl)
    through-Names (hop ∷ hops) v bs payload (f, fs) w named =
        let (bs1, named1, e1) = forward-Names hop v bs payload f w named in
        let (v2, bs2, w2, named2, e2) =
          through-Names hops hop.opts.send_proxy_version bs1 payload fs f.version named1 in
        (v2, bs2, w2, named2, rw e1 e2)

  -- The first relay of a row: it sends a header and takes none, and its client has the address `c`.
  pub record IsEntry (c : SocketAddr) (hop : Hop) : Type 0 where
    pub plain : hop.opts.accept_proxy ≡ false
    pub sends : hop.opts.send_proxy ≡ true
    pub version : IsVersion hop.opts.send_proxy_version
    pub known : hop.peer_addr ≡ some c
    pub ready : hop.writable ≡ true

  -- Through a relay that sends a header and any number of relays after it that take one and send one,
  -- in any mix of the versions 1 and 2, a server that takes the header finds the address of the first
  -- client, and after the header exactly what this client sent; if each header has arrived whole
  -- where it is taken, and no socket fails.
  pub through-delivers :
      (codec : Codec parse encode) (c : SocketAddr) (entry : Hop) (hops : List Hop) (server : Hop)
      (payload : List ℕ)
      → IsEntry c entry
      → AreForwarders c (unspecified c) hops
      → HasArrived c (unspecified c) server
      → in_time server.opts (sockets server []) ≡ true
      → (through (entry ∷ hops) payload >>= λ out.
          accept_header parse encode server.opts (sockets server out))
        ≡ ok (some (c, unspecified c), sockets server payload)
  unfolding through forward sockets
  through-delivers codec c entry hops server payload e fs a timely =
      let (h, bs, made, coded, out) =
        proxied_sends parse encode codec entry.opts (sockets entry payload) e.plain e.sends c
          e.known e.ready e.version in
      let (v, bs', w, named, e') =
        through-Names codec c (unspecified c) (is_ipv4-unspecified c) hops
          entry.opts.send_proxy_version bs payload fs e.version (h, made, coded) in
      rw (out, e')
        (accept_header-Names codec c (unspecified c) (is_ipv4-unspecified c) server v bs' payload a
          timely w named)
