-- ===== src/Conf/Dns/Servers.antt =====
-- The name servers that src/conf/dns.rs hands to the resolver.
use bytehub.Prelude.{
  ℕ, zero, suc, ◌+◌, ◌*◌, ◌≡◌, ap, sym, ◌∙◌, Option, none, some, List, [], ◌∷◌, ◌++◌, map,
  get_elem?, length, arith, length-append, length-map, append-nil, ++_assoc,
}
use bytehub.Core.Options.{SocketAddr}
use bytehub.Conf.Net.Build.{unwrap_or}
use bytehub.Conf.Dns.{DnsConf, DnsProtocol, Protocol, protocols}
use bytehub.Conf.Dns.Build.{
  NameServer, Library, ResolverOpts, add_protocols, add_servers, servers, build,
}

get_elem?-append_left :
    {A : Type 0} (xs ys : List A) (i : ℕ) {a : A}
    → get_elem? xs i ≡ some a
    → get_elem? (xs ++ ys) i ≡ some a
get_elem?-append_left [] ys i h = absurd cc
get_elem?-append_left (x ∷ xs) ys zero h = h
get_elem?-append_left (x ∷ xs) ys (suc i) h = get_elem?-append_left xs ys i h

get_elem?-append_right :
    {A : Type 0} (xs ys : List A) (i : ℕ) → get_elem? (xs ++ ys) (length xs + i) ≡ get_elem? ys i
get_elem?-append_right [] ys i = ap (λ (n : ℕ). get_elem? ys n) (omega arith)
get_elem?-append_right (x ∷ xs) ys i =
    let n : suc (length xs) + i ≡ suc (length xs + i) = omega arith in
    rw n (get_elem?-append_right xs ys i)

get_elem?-map :
    {A B : Type 0} (f : A → B) (xs : List A) (i : ℕ) {a : A}
    → get_elem? xs i ≡ some a
    → get_elem? (map f xs) i ≡ some (f a)
get_elem?-map f [] i h = absurd cc
get_elem?-map f (x ∷ xs) zero h = ap (λ o. elim o [ none ↦ none | some a ↦ some (f a) ]) h
get_elem?-map f (x ∷ xs) (suc i) h = get_elem?-map f xs i h

abbrev pub server : SocketAddr → Protocol → NameServer
server a p = record { socket_addr = a; protocol = p }

-- Each address with each protocol, the protocols of one address side by side.
abbrev each : List SocketAddr → List Protocol → List NameServer
each [] ps = []
each (a ∷ rest) ps = map (server a) ps ++ each rest ps

add_protocols-map :
    (a : SocketAddr) (ps : List Protocol) (conf : List NameServer)
    → add_protocols a ps conf ≡ conf ++ map (server a) ps
unfolding add_protocols
add_protocols-map a [] conf = sym (append-nil conf)
add_protocols-map a (p ∷ ps) conf =
    add_protocols-map a ps (conf ++ server a p ∷ []) ∙ ++_assoc conf (server a p ∷ []) _

add_servers-each :
    (addrs : List SocketAddr) (ps : List Protocol) (conf : List NameServer)
    → add_servers addrs ps conf ≡ conf ++ each addrs ps
unfolding add_servers
add_servers-each [] ps conf = sym (append-nil conf)
add_servers-each (a ∷ rest) ps conf =
    add_servers-each rest ps (add_protocols a ps conf)
    ∙ ap (λ c. c ++ each rest ps) (add_protocols-map a ps conf)
    ∙ ++_assoc conf (map (server a) ps) (each rest ps)

length-each :
    (addrs : List SocketAddr) (ps : List Protocol)
    → length (each addrs ps) ≡ length addrs * length ps
length-each [] ps = omega arith
length-each (a ∷ rest) ps =
    let ih = length-each rest ps in
    length-append (map (server a) ps) (each rest ps) ∙ grind (arith, length-map ps (server a))

get_elem?-each :
    (addrs : List SocketAddr) (ps : List Protocol) (i j : ℕ) {a : SocketAddr} {p : Protocol}
    → get_elem? addrs i ≡ some a
    → get_elem? ps j ≡ some p
    → get_elem? (each addrs ps) (i * length ps + j) ≡ some (server a p)
get_elem?-each [] ps i j h k = absurd cc
get_elem?-each (b ∷ rest) ps zero j {a} {p} h k =
    let n : 0 * length ps + j ≡ j = omega arith in
    let same : b ≡ a = cc h in
    rw (n, ← same)
      (get_elem?-append_left (map (server b) ps) (each rest ps) j (get_elem?-map (server b) ps j k))
get_elem?-each (b ∷ rest) ps (suc i) j h k =
    let n : suc i * length ps + j ≡ length (map (server b) ps) + (i * length ps + j) =
      grind (arith, length-map ps (server b)) in
    rw n (
      get_elem?-append_right (map (server b) ps) (each rest ps) (i * length ps + j)
      ∙ get_elem?-each rest ps i j h k)

module _ {O : Type 0} (lib : Library O) (c : DnsConf) (conf : List NameServer)
    (opts : Option (ResolverOpts O)) (addrs : List SocketAddr)
    (built : build lib c ≡ some (some conf, opts))
    (own : servers lib c.nameservers ≡ some addrs) where
  -- The protocols that are set, or else both.
  abbrev asked : List Protocol
  asked = protocols (unwrap_or c.protocol DnsProtocol.tcp_and_udp)

  built-each : conf ≡ each addrs asked
  unfolding build
  built-each =
      let e : conf ≡ add_servers addrs asked [] = ground (arith, built, own) in
      e ∙ add_servers-each addrs asked []

  -- A resolver that is built with servers asks each of them by each of the protocols that are set, and
  -- nothing else: their number is that of the servers times that of the protocols, and the server at
  -- place `i` with the protocol at place `j` stands at `i` times the number of protocols plus `j`.
  pub build-servers :
      (i j : ℕ) {a : SocketAddr} {p : Protocol}
      → get_elem? addrs i ≡ some a
      → get_elem? (protocols (unwrap_or c.protocol DnsProtocol.tcp_and_udp)) j ≡ some p
      → let n = length (protocols (unwrap_or c.protocol DnsProtocol.tcp_and_udp)) in
        (length conf ≡ length addrs * n) × (get_elem? conf (i * n + j) ≡ some (server a p))
  build-servers i j h k = (
    ap length built-each ∙ length-each addrs asked,
    ap (λ l. get_elem? l (i * length asked + j)) built-each ∙ get_elem?-each addrs asked i j h k,
  )
