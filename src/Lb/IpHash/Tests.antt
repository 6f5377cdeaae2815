-- ===== src/Lb/IpHash/Tests.antt =====
-- Runs of bytehub_lb/src/ip_hash.rs at small inputs.
use bytehub.Prelude.{
  ℕ, zero, suc, ◌<◌, ◌≡◌, refl, Option, none, some, List, [], ◌∷◌, arith, length, get_elem?,
}
use bytehub.Lb.{HealthCheckConfig}
use bytehub.Lb.IpHash.{BackendHealth, healthy, Node, IpHash, ring, replica_ratio, new, next_from}
use bytehub.Lb.IpHash.Hash.{chash, chash_for_ip}
use bytehub.Lb.IpHash.Hash.Agree.{chash-chash_for_ip}
use bytehub.Lb.IpHash.Probing.{next_from-first}
use bytehub.Lb.IpHash.Backends.{IsWhole, IsOpen, IsClosed, along}
use bytehub.Lb.IpHash.Ring.{new-IsWhole}

abbrev limits : HealthCheckConfig
limits = record { max_fails = 2; fail_timeout_secs = 120; max_latency_ms = none }

abbrev bad : BackendHealth
bad = record { fails = 2; checked = 100 }

-- Three places on the ring, of two backends.
abbrev places : List Node
places =
    record { hash = 10; token = 0 }
    ∷ record { hash = 20; token = 1 }
    ∷ record { hash = 30; token = 0 }
    ∷ []

abbrev with_backends : Option HealthCheckConfig → List BackendHealth → IpHash
with_backends config backends = record {
  nodes = places;
  backends = backends;
  total = 2;
  config = config;
}

abbrev first_out : IpHash
first_out = with_backends (some limits) (bad ∷ healthy ∷ [])

abbrev all_out : IpHash
all_out = with_backends (some limits) (bad ∷ bad ∷ [])

abbrev unchecked : IpHash
unchecked = with_backends none (bad ∷ healthy ∷ [])

places-owned : (k : ℕ) (node : Node) → get_elem? places k ≡ some node → node.token < 2
places-owned zero node e = ground (arith, e)
places-owned (suc zero) node e = ground (arith, e)
places-owned (suc (suc zero)) node e = ground (arith, e)
places-owned (suc (suc (suc k))) node e = cc e

next_from-first_example :
    (o : ℕ) × (n : Node) × (b' : IpHash) × (next_from 50 first_out 2 ≡ some (n.token, b'))
    × (along first_out 2 o ≡ some n)
    × IsOpen 50 limits first_out n.token
    × ((i : ℕ) (r : Node)
        → i < o
        → along first_out 2 i ≡ some r
        → IsClosed 50 limits first_out r.token)
next_from-first_example =
    next_from-first 50 limits first_out 2 1 (record { hash = 20; token = 1 })
      (record { full = omega arith; owned = places-owned }) refl (omega arith) refl
      (record { backend = healthy; at = refl; free = λ (few, late). omega arith })

bad-IsClosed : (k : ℕ) (n : Node) → get_elem? places k ≡ some n → IsClosed 50 limits all_out n.token
bad-IsClosed zero n e = record {
  backend = bad;
  at = ground (arith, e);
  excluded = (omega arith, omega arith);
}
bad-IsClosed (suc zero) n e = record {
  backend = bad;
  at = ground (arith, e);
  excluded = (omega arith, omega arith);
}
bad-IsClosed (suc (suc zero)) n e = record {
  backend = bad;
  at = ground (arith, e);
  excluded = (omega arith, omega arith);
}
bad-IsClosed (suc (suc (suc k))) n e = cc e

chash-chash_for_ip_example : chash (10 ∷ 0 ∷ 0 ∷ 7 ∷ []) ≡ chash_for_ip 0 (10 ∷ 0 ∷ 0 ∷ 7 ∷ [])
chash-chash_for_ip_example =
    chash-chash_for_ip (10 ∷ 0 ∷ 0 ∷ 7 ∷ [])
      (omega arith, (omega arith, (omega arith, (omega arith, tt)))) refl

abbrev as_is : List Node → List Node
as_is ns = ns

-- Of the weights 200 and 100, whose ring has one replica for each unit of weight and one more.
two_weights : IpHash
unfolding ring replica_ratio
two_weights = record {
  nodes = ring (replica_ratio (200 ∷ 100 ∷ [])) 0 (200 ∷ 100 ∷ []);
  backends = healthy ∷ healthy ∷ [];
  total = 2;
  config = some limits;
}

two_weights_made : new as_is (200 ∷ 100 ∷ []) (some limits) ≡ some two_weights
unfolding new two_weights
two_weights_made = refl

new-IsWhole_example :
    IsWhole two_weights × (length two_weights.backends ≡ 2) × (two_weights.total ≡ 2)
new-IsWhole_example =
    new-IsWhole as_is (200 ∷ 100 ∷ []) (some limits) two_weights
      (record { keeps_length = λ ns. refl; invents_none = λ ns k n e. (k, e) }) (omega arith)
      two_weights_made
