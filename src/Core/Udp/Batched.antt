-- ===== src/Core/Udp/Batched.antt =====
-- bytehub_core/src/udp/batched.rs without the feature of batched system calls, and the registry of
-- bytehub_core/src/udp/middle.rs. An address is of any type with a comparison; a receive and a send of
-- tokio are parameters.
use bytehub.Prelude.{
  ℕ, ◌-◌, ◌%◌, ◌^◌, Bool, true, false, Option, none, some, List, [], ◌∷◌, ◌++◌, map, length, take,
  drop, replicate, if◌then◌else◌, ◌≡◌, refl, ap, Bool-cases, inl, inr,
}
use bytehub.Core.Udp.Group.{Range, group_by_inner}

abbrev pub packet_size : ℕ
packet_size = 1500

abbrev pub max_packets : ℕ
max_packets = 128

pub record Packet (Addr : Type 0) : Type 0 where
  pub buf : List ℕ
  pub addr : Addr
  pub cursor : ℕ

pub record PacketRef (Addr : Type 0) : Type 0 where
  pub buf : List ℕ
  pub addr : Addr

-- The packets of a batch, the ranges of its groups, and how many were received.
pub record Registry (Addr : Type 0) : Type 0 where
  pub pkts : List (Packet Addr)
  pub groups : List Range
  pub cursor : ℕ

module _ {Addr : Type 0} (eq : Addr → Addr → Bool) where
  pub new_packet : Addr → Packet Addr
  new_packet a = record { buf = replicate packet_size 0; addr = a; cursor = 0 }

  unfoldable pub ref_with_addr : Packet Addr → Addr → PacketRef Addr
  ref_with_addr pkt a = record { buf = take pkt.cursor pkt.buf; addr = a }

  -- Into the first packet, of which there is one; none is an error of the socket, or no packet.
  pub recv_some : Option (List ℕ × Addr) → List (Packet Addr) → Option (List (Packet Addr) × ℕ)
  recv_some none pkts = none
  recv_some (some (bytes, a)) [] = none
  recv_some (some (bytes, a)) (pkt ∷ pkts) = some (
    record { buf = bytes ++ drop (length bytes) pkt.buf; addr = a; cursor = length bytes % 2 ^ 16 }
        ∷ pkts,
    1,
  )

  -- The packets that were sent, and whether all were.
  unfoldable pub send_all :
      (PacketRef Addr → Bool) → List (PacketRef Addr) → List (PacketRef Addr) × Bool
  send_all send [] = ([], true)
  send_all send (pkt ∷ pkts) =
      let (sent, all) = send_all send pkts in if send pkt then (pkt ∷ sent, all) else ([], false)

  pub new : ℕ → Addr → Registry Addr
  unfolding new_packet
  new npkts a = record { pkts = replicate npkts (new_packet a); groups = []; cursor = 0 }

  pub batched_recv_on : Option (List ℕ × Addr) → Registry Addr → Option (Registry Addr)
  unfolding recv_some
  batched_recv_on received reg = elim (recv_some received reg.pkts) [
    | none ↦ none
    | some (pkts, n) ↦ some (record reg { pkts = pkts; cursor = n % 2 ^ 16 })
  ]

  abbrev pub same_addr : Packet Addr → Packet Addr → Bool
  same_addr p q = eq p.addr q.addr

  unfoldable pub group_by_addr : Registry Addr → Registry Addr
  group_by_addr reg =
      let (sorted, groups) = group_by_inner same_addr (take reg.cursor reg.pkts) in
      record reg { pkts = sorted ++ drop reg.cursor reg.pkts; groups = groups }

  unfoldable pub slice : List (Packet Addr) → Range → List (Packet Addr)
  slice pkts r = take (r.end - r.start) (drop r.start pkts)

  unfoldable pub group_iter : Registry Addr → List (List (Packet Addr))
  unfolding slice
  group_iter reg = map (slice reg.pkts) reg.groups

  unfoldable pub iter : Registry Addr → List (Packet Addr)
  iter reg = take reg.cursor reg.pkts

  -- Where all were sent.
  pub send_all-whole :
      (f : PacketRef Addr → Bool) (pkts : List (PacketRef Addr))
      → (send_all f pkts).1 ≡ true
      → (send_all f pkts).0 ≡ pkts
  unfolding send_all
  send_all-whole f [] e = refl
  send_all-whole f (p ∷ ps) e = elim (Bool-cases (f p)) [
    | inl sent ↦
        rw sent (ap (λ (t : List (PacketRef Addr)). p ∷ t) (send_all-whole f ps (rw sent at e)))
    | inr lost ↦ let never : false ≡ true = rw lost at e in absurd cc
  ]
