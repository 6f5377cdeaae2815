-- ===== src/Core/Tcp/Proxy/Handled.antt =====
-- What a relay does with the headers of the PROXY protocol: one that it makes, and one that it takes.
use Prim.Native.Nat.{min}
use bytehub.Prelude.{
  ℕ, ◌-◌, ◌≤◌, ◌≡◌, ◌≢◌, ◌↔◌, inl, inr, refl, Bool-cases, Option-cases, ◌∙◌, true, false, Option,
  some, none, List, ◌++◌, ltb, length, take, arith, length-append, take-append_ge, drop-append,
}
use bytehub.Core.Tcp.Proxy.Headers.{
  SocketAddr, ProxyHeader, ok, failed, panicked, ◌>>=◌, make_header, handle_header, unspecified,
}
use bytehub.Core.Tcp.Proxy.Made.{
  IsVersion, Codec, make_header-panics, handle_header-make_header, is_ipv4-unspecified,
}
use bytehub.Core.Tcp.Proxy.{
  ProxyOpts, Sockets, enabled, in_time, peek, read_exact, write_all, accept_header, addresses,
  send_header, handle_proxy, proxied,
}

module _ (parse : List ℕ → Option (ProxyHeader × List ℕ))
    (encode : ProxyHeader → Option (List ℕ)) where
  -- A header that has arrived whole is taken, and what stands behind it is left.
  pub accept_header_lem :
      (opts : ProxyOpts) (s : Sockets) (n : ℕ) (bs rest : List ℕ) (h : ProxyHeader)
      → in_time opts s ≡ true
      → s.arrived ≡ some n
      → s.incoming ≡ bs ++ rest
      → length bs ≤ min 256 n
      → ((more : List ℕ) → parse (bs ++ more) ≡ some (h, more))
      → accept_header parse encode opts s ≡ ok (handle_header h, record s { incoming = rest })
  unfolding accept_header peek read_exact
  accept_header_lem opts s n bs rest h timely here all whole law =
      let m : ℕ = min 256 n - length bs in
      let parsed : length (bs ++ take m rest) - length (take m rest) ≡ length bs =
        omega (arith, length-append bs (take m rest)) in
      let there : ltb (length (bs ++ rest)) (length bs) ≡ false =
        ground (arith, length-append bs rest) in
      rw (timely, here, all, take-append_ge (min 256 n) bs rest whole, law (take m rest), parsed)
        (rw (there, drop-append (length bs) bs rest refl) refl)

  -- The addresses for the remote are written to it in a header of the version that is set.
  pub send_header_lem :
      (opts : ProxyOpts) (found : Option (SocketAddr × SocketAddr)) (s : Sockets) (c d : SocketAddr)
      (h : ProxyHeader) (bs : List ℕ)
      → s.writable ≡ true
      → addresses parse encode found s ≡ ok (c, d)
      → make_header c d opts.send_proxy_version ≡ ok h
      → encode h ≡ some bs
      → send_header parse encode opts found s ≡ ok (record s { sent = s.sent ++ bs })
  unfolding send_header write_all
  send_header_lem opts found s c d h bs ready named made coded = rw (named, made, coded, ready) refl

  -- Where headers are taken and sent, the addresses that are taken are sent.
  pub proxied-accept_header :
      (opts : ProxyOpts) (s : Sockets)
      → opts.accept_proxy ≡ true
      → opts.send_proxy ≡ true
      → proxied parse encode opts s
        ≡ (accept_header parse encode opts s >>= λ r. send_header parse encode opts r.0 r.1)
  unfolding proxied enabled handle_proxy
  proxied-accept_header opts s accepts sends = rw (sends, accepts) refl

module _ (parse : List ℕ → Option (ProxyHeader × List ℕ)) (encode : ProxyHeader → Option (List ℕ))
    (codec : Codec parse encode) (opts : ProxyOpts) (s : Sockets)
    (plain : opts.accept_proxy ≡ false) (sends : opts.send_proxy ≡ true) where
  proxied-send_header : proxied parse encode opts s ≡ send_header parse encode opts none s
  unfolding proxied enabled handle_proxy
  proxied-send_header = rw (sends, plain) refl

  module _ (p : SocketAddr) (known : s.peer_addr ≡ some p) where
    addresses_peer : addresses parse encode none s ≡ ok (p, unspecified p)
    unfolding addresses
    addresses_peer = rw known refl

    panicked_elsewhere :
        opts.send_proxy_version ≢ 1
        → opts.send_proxy_version ≢ 2
        → proxied parse encode opts s ≡ panicked
    unfolding send_header
    panicked_elsewhere h1 h2 =
        proxied-send_header
        ∙ rw (addresses_peer, make_header-panics p (unspecified p) opts.send_proxy_version h1 h2)
            refl

    -- A relay that only sends headers writes one with the address of its client, if that is known and the
    -- remote takes it, in the version that is set, if that is 1 or 2.
    pub proxied_sends :
        s.writable ≡ true
        → IsVersion opts.send_proxy_version
        → (h : ProxyHeader) × (bs : List ℕ) × (make_header p (unspecified p) opts.send_proxy_version
            ≡ ok h)
          × (encode h ≡ some bs)
          × (proxied parse encode opts s ≡ ok (record s { sent = s.sent ++ bs }))
    proxied_sends ready w =
        let (h, made, back) =
          handle_header-make_header p (unspecified p) opts.send_proxy_version
            (is_ipv4-unspecified p) w in
        let (bs, coded) = codec.encodes p (unspecified p) opts.send_proxy_version h made in
        (
          h,
          bs,
          made,
          coded,
          proxied-send_header
              ∙ send_header_lem parse encode opts none s p (unspecified p) h bs ready addresses_peer
                  made coded,
        )

  failed_unknown : s.peer_addr ≡ none → proxied parse encode opts s ≡ failed
  unfolding send_header addresses
  failed_unknown gone = proxied-send_header ∙ rw (gone, send_header, addresses) refl

  -- In version 1 or 2, the header is written if the remote takes it, and else there is an error.
  in_version :
      (p : SocketAddr)
      → s.peer_addr ≡ some p
      → IsVersion opts.send_proxy_version
      → proxied parse encode opts s ≢ panicked
  unfolding send_header write_all
  in_version p known w e = elim (Bool-cases s.writable) [
    | inl ready ↦ let (h, bs, _, _, sent) = proxied_sends p known ready w in absurd (cc (e, sent))
    | inr stuck ↦
        let (h, made, back) =
          handle_header-make_header p (unspecified p) opts.send_proxy_version
            (is_ipv4-unspecified p) w in
        let (bs, coded) = codec.encodes p (unspecified p) opts.send_proxy_version h made in
        let lost : proxied parse encode opts s ≡ failed =
          proxied-send_header ∙ rw (addresses_peer p known, made, coded, stuck) refl in
        absurd (cc (e, lost))
  ]

  -- A relay that only sends headers panics on a connection exactly if the address of its client is
  -- known and the version that is set is neither 1 nor 2.
  pub proxied_panics_iff : (proxied parse encode opts s ≡ panicked) ↔ (
      ((p : SocketAddr) × (s.peer_addr ≡ some p))
      × (opts.send_proxy_version ≢ 1)
      × (opts.send_proxy_version ≢ 2))
  proxied_panics_iff = (
    λ e. elim (Option-cases s.peer_addr) [
      | inl gone ↦ absurd (cc (e, failed_unknown gone))
      | inr (p, known) ↦
          ((p, known), λ one. in_version p known (inl one) e, λ two. in_version p known (inr two) e)
    ],
    λ h. let ((p, known), h1, h2) = h in panicked_elsewhere p known h1 h2,
  )
