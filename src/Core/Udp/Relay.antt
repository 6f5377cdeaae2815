-- ===== src/Core/Udp/Relay.antt =====
-- bytehub_core/src/udp/middle.rs: a batch of packets from the clients to the remote, and the replies of
-- one remote socket. Making a socket and sending on one are parameters; a socket is made for the
-- resolved remote, and `associate` takes the client only to tell the sockets apart. Each reply task is
-- spawned where its socket is made; that one ends and removes its socket during a round is left out.
pub mod Routing
pub mod Batch
mod Tests
use bytehub.Prelude.{
  ℕ, Bool, true, false, Option, none, some, List, [], ◌∷◌, ◌++◌, map, if◌then◌else◌,
}
use bytehub.Core.Udp.Batched.{
  Packet, PacketRef, Registry, ref_with_addr, send_all, batched_recv_on, group_by_addr, group_iter,
  iter,
}
use bytehub.Core.Udp.SockMap.{SockMap, find_or_insert, remove}

-- A packet that was sent, with its socket.
pub record Sent (Addr Sock : Type 0) : Type 0 where
  pub sock : Sock
  pub pkt : PacketRef Addr

-- The table of sockets, and the packets sent so far.
pub record State (Addr Sock : Type 0) : Type 0 where
  pub sockmap : SockMap Addr Sock
  pub sent : List (Sent Addr Sock)

module _ {Addr Sock : Type 0} (eq : Addr → Addr → Bool) (associate : Addr → Option Sock)
    (send : Sock → PacketRef Addr → Bool) where
  pub sent_on : Sock → List (PacketRef Addr) → List (Sent Addr Sock)
  sent_on s pkts = map (λ p. record { sock = s; pkt = p }) pkts

  -- The packets of one sender go through its socket. None is the error that ends the task.
  pub send_group :
      Addr
      → State Addr Sock
      → List (Packet Addr)
      → Option (Sock × SockMap Addr Sock)
      → Option (State Addr Sock)
  unfolding sent_on
  send_group raddr st pkts none = none
  send_group raddr st pkts (some (rsock, sockmap)) =
      let (sent, all) = send_all eq (send rsock) (map (λ x. ref_with_addr eq x raddr) pkts) in
      if all
      then some (record { sockmap = sockmap; sent = st.sent ++ sent_on rsock sent })
      else none

  -- No group is empty; `pkts[0]` of one would panic.
  pub relay_group : Addr → State Addr Sock → List (Packet Addr) → Option (State Addr Sock)
  unfolding send_group
  relay_group raddr st [] = none
  relay_group raddr st (p ∷ ps) =
      send_group raddr st (p ∷ ps) (find_or_insert eq st.sockmap p.addr (associate p.addr))

  pub relay_groups : Addr → State Addr Sock → List (List (Packet Addr)) → Option (State Addr Sock)
  unfolding relay_group
  relay_groups raddr st [] = some st
  relay_groups raddr st (g ∷ gs) = elim (relay_group raddr st g) [
    | none ↦ none
    | some st' ↦ relay_groups raddr st' gs
  ]

  -- A round of `associate_and_relay`, after the batch was received and the remote resolved.
  pub relay_batch : Addr → State Addr Sock → Registry Addr → Option (State Addr Sock)
  unfolding relay_groups
  relay_batch raddr st reg = relay_groups raddr st (group_iter eq (group_by_addr eq reg))

-- What a round of the replies receives: a batch, or the end of the task.
module _ {Addr Sock : Type 0} (eq : Addr → Addr → Bool) (send : PacketRef Addr → Bool) where
  -- The replies sent to the client until a receive fails or times out, or a send fails. The batches are
  -- those that the socket gives, one by one; then the task ends.
  pub send_back :
      Addr → List (Registry Addr) → SockMap Addr Sock → List (PacketRef Addr) × SockMap Addr Sock
  send_back laddr [] sockmap = ([], remove eq sockmap laddr)
  send_back laddr (reg ∷ regs) sockmap =
      let (sent, all) = send_all eq send (map (λ x. ref_with_addr eq x laddr) (iter eq reg)) in
      let (later, sockmap') = send_back laddr regs sockmap in
      if all then (sent ++ later, sockmap') else (sent, remove eq sockmap laddr)
