-- ===== src/Core/Udp/Relay/Tests.antt =====
-- A batch relayed as in bytehub_core/src/udp/middle.rs, with numbers for addresses and sockets.
use bytehub.Prelude.{
  ℕ, ◌+◌, ◌≡◌, ◌≢◌, refl, Bool, true, Option, some, List, [], ◌∷◌, ◌++◌, map, length, ◌==◌, ==_iff,
  arith,
}
use bytehub.Core.Udp.Group.Open.{IsGrouped}
use bytehub.Core.Udp.Group.{
  Range, range, put_both, swap, eq_both, eq_at, pick, gather, groups_from, group_by_inner,
}
use bytehub.Core.Udp.Group.Moves.{count}
use bytehub.Core.Udp.Batched
use bytehub.Core.Udp.Batched.{Packet, PacketRef, Registry, iter}
use bytehub.Core.Udp.SockMap
use bytehub.Core.Udp.SockMap.{SockMap, find, find_or_insert, find_or_insert-find}
use bytehub.Core.Udp.Relay.{State, sent_on, send_group, relay_group, relay_groups, relay_batch}
use bytehub.Core.Udp.Relay.Routing.{routed, logged}
use bytehub.Core.Udp.Relay.Batch.{relay_batch-IsRouted}

abbrev packet : ℕ → ℕ → Packet ℕ
packet a b = record { buf = b ∷ 0 ∷ []; addr = a; cursor = 1 }

abbrev batch : Registry ℕ
batch = record {
  pkts = packet 7 1 ∷ packet 8 2 ∷ packet 7 3 ∷ packet 9 4 ∷ [];
  groups = [];
  cursor = 3;
}

abbrev idle : State ℕ ℕ
idle = record { sockmap = record { entries = (8, 50) ∷ [] }; sent = [] }

abbrev socket : ℕ → Option ℕ
socket a = some (a + 100)

abbrev sends : ℕ → PacketRef ℕ → Bool
sends s p = true

abbrev after : State ℕ ℕ
after = record {
  sockmap = record { entries = (7, 107) ∷ (8, 50) ∷ [] };
  sent =
      record { sock = 107; pkt = record { buf = 1 ∷ []; addr = 99 } }
      ∷ record { sock = 107; pkt = record { buf = 3 ∷ []; addr = 99 } }
      ∷ record { sock = 50; pkt = record { buf = 2 ∷ []; addr = 99 } }
      ∷ [];
}

relayed : relay_batch ◌==◌ socket sends 99 idle batch ≡ some after
unfolding range put_both swap eq_both eq_at pick gather groups_from group_by_inner sent_on
    send_group relay_group relay_groups relay_batch Batched.ref_with_addr Batched.send_all
    Batched.group_by_addr Batched.slice Batched.group_iter SockMap.lookup SockMap.without
    SockMap.find SockMap.insert SockMap.found_or_made find_or_insert
relayed = refl

relay_batch-IsRouted_example :
    (sorted : List (Packet ℕ)) × (groups : List Range) × IsGrouped
      (Batched.same_addr ◌==◌)
      sorted
      groups
      0
      (length sorted)
    × ((test : Packet ℕ → Bool) → count test sorted ≡ count test (iter ◌==◌ batch))
    × ((b t : ℕ) → find ◌==◌ idle.sockmap b ≡ some t → find ◌==◌ after.sockmap b ≡ some t)
    × (map (logged ◌==◌ ==_iff socket sends 99) after.sent
        ≡ map (logged ◌==◌ ==_iff socket sends 99) idle.sent
          ++ map (routed ◌==◌ ==_iff socket sends 99 after.sockmap) sorted)
unfolding iter
relay_batch-IsRouted_example =
    relay_batch-IsRouted ◌==◌ ==_iff socket sends 99 batch idle after (omega arith) (omega arith)
      relayed

found : find_or_insert ◌==◌ idle.sockmap 7 (some 107) ≡ some (107, after.sockmap)
unfolding SockMap.lookup SockMap.without SockMap.find SockMap.insert SockMap.found_or_made
    find_or_insert
found = refl

apart : ◌≢◌ {A = ℕ} 8 7
apart e = omega (arith, e)
