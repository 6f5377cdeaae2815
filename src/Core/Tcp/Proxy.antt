-- ===== src/Core/Tcp/Proxy.antt =====
-- bytehub_core/src/tcp/proxy.rs: the header of the PROXY protocol is taken from the client and written
-- to the remote. `parse` and `encode` of the crate proxy-protocol are parameters: `parse` gives the
-- header and what it leaves of the bytes.
pub mod Headers
pub mod Made
pub mod Handled
pub mod Chain
mod Tests
use Prim.Native.Nat.{min}
use bytehub.Prelude.{
  ℕ, zero, ◌-◌, Bool, true, false, ◌||◌, Option, none, some, List, ◌++◌, ltb, leb, if◌then◌else◌,
  length, take, drop,
}
use bytehub.Core.Tcp.Proxy.Headers.{
  SocketAddr, ProxyHeader, Result, ok, failed, ◌>>=◌, try, make_header, handle_header, unspecified,
}

-- bytehub_core/src/endpoint.rs.
pub record ProxyOpts : Type 0 where
  pub send_proxy : Bool
  pub accept_proxy : Bool
  pub send_proxy_version : ℕ
  pub accept_proxy_timeout : ℕ

pub enabled : ProxyOpts → Bool
enabled opts = opts.send_proxy || opts.accept_proxy

-- The two sockets: all that the client sends, how many bytes of it stand in the socket's buffer when
-- the peek returns, and after how many seconds, `none` for an error; the client's address; what has
-- been written to the remote, and whether it takes more.
pub record Sockets : Type 0 where
  pub incoming : List ℕ
  pub arrived : Option ℕ
  pub arrived_after : ℕ
  pub peer_addr : Option SocketAddr
  pub sent : List ℕ
  pub writable : Bool

-- `timeoutfut` of bytehub_core/src/time.rs: with 0 seconds it waits for ever, and the value is polled
-- before the delay.
unfoldable pub in_time : ProxyOpts → Sockets → Bool
in_time opts s = elim opts.accept_proxy_timeout [ zero ↦ true | t ↦ leb s.arrived_after t ]

-- `src.peek` into a buffer of 256 bytes.
pub peek : ProxyOpts → Sockets → Result (List ℕ)
unfolding in_time
peek opts s =
    if in_time opts s then (do n ← try s.arrived; ok (take (min 256 n) s.incoming)) else failed

pub read_exact : ℕ → Sockets → Result Sockets
read_exact n s =
    if ltb (length s.incoming) n then failed else ok (record s { incoming = drop n s.incoming })

pub write_all : List ℕ → Sockets → Result Sockets
write_all bs s = if s.writable then ok (record s { sent = s.sent ++ bs }) else failed

module _ (parse : List ℕ → Option (ProxyHeader × List ℕ))
    (encode : ProxyHeader → Option (List ℕ)) where
  -- The header is parsed from what has arrived, and its bytes are read away.
  pub accept_header : ProxyOpts → Sockets → Result (Option (SocketAddr × SocketAddr) × Sockets)
  unfolding peek read_exact
  accept_header opts s = do
    buf ← peek opts s
    (header, rest) ← try (parse buf)
    s' ← read_exact (length buf - length rest) s
    ok (handle_header header, s')

  -- The addresses of the client's header, or else that of the client's socket.
  pub addresses : Option (SocketAddr × SocketAddr) → Sockets → Result (SocketAddr × SocketAddr)
  unfolding unspecified
  addresses (some a) s = ok a
  addresses none s = do client ← try s.peer_addr; ok (client, unspecified client)

  pub send_header : ProxyOpts → Option (SocketAddr × SocketAddr) → Sockets → Result Sockets
  unfolding addresses write_all
  send_header opts found s = do
    (client, server) ← addresses found s
    header ← make_header client server opts.send_proxy_version
    bs ← try (encode header)
    write_all bs s

  pub handle_proxy : ProxyOpts → Sockets → Result Sockets
  unfolding accept_header send_header
  handle_proxy opts s =
      if opts.accept_proxy
      then (do
        (found, s') ← accept_header opts s
        if opts.send_proxy then send_header opts found s' else ok s')
      else send_header opts none s

  -- As `connect_and_relay` of bytehub_core/src/tcp/middle.rs calls it.
  pub proxied : ProxyOpts → Sockets → Result Sockets
  unfolding enabled handle_proxy
  proxied opts s = if enabled opts then handle_proxy opts s else ok s
