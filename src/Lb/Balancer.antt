-- ===== src/Lb/Balancer.antt =====
-- bytehub_lb/src/balancer.rs: the choice of a strategy. `none` is a panic, as in the strategies; a
-- peer address and a text are their bytes.
pub mod Written
pub mod Digits
mod Tests
use bytehub.Prelude.{ℕ, Option, none, some, List, if◌then◌else◌, ◌∷◌, ◌>>=◌}
use bytehub.Prelude.Bytes.{bytes, ◌=?◌}
use bytehub.Prelude.Text.{trim, split, split_once, filter_map}
use bytehub.Lb.{HealthCheckConfig, Token}
use bytehub.Lb.IpHash
use bytehub.Lb.IpHash.{IpHash}
use bytehub.Lb.RoundRobin
use bytehub.Lb.RoundRobin.{RoundRobin}

pub data Strategy : Type 0 where
  off ip_hash round_robin : Strategy

-- `From<&str>` panics on any other word.
unfoldable pub from_str : List ℕ → Option Strategy
from_str s =
    if s =? bytes "off"
    then some Strategy.off
    else if s =? bytes "iphash"
    then some Strategy.ip_hash
    else if s =? bytes "roundrobin"
    then some Strategy.round_robin
    else none

unfoldable pub display : Strategy → List ℕ
display Strategy.off = bytes "off"
display Strategy.ip_hash = bytes "iphash"
display Strategy.round_robin = bytes "roundrobin"

pub data Balancer : Type 0 where
  off : Balancer
  ip_hash : IpHash → Balancer
  round_robin : RoundRobin → Balancer

module _ (sort : List IpHash.Node → List IpHash.Node) where
  unfoldable pub new : Strategy → List ℕ → Option HealthCheckConfig → Option Balancer
  new Strategy.off weights config = some Balancer.off
  new Strategy.ip_hash weights config = elim (IpHash.new sort weights config) [
    | none ↦ none
    | some b ↦ some (Balancer.ip_hash b)
  ]
  new Strategy.round_robin weights config = elim (RoundRobin.new weights config) [
    | none ↦ none
    | some b ↦ some (Balancer.round_robin b)
  ]

pub strategy : Balancer → Strategy
strategy Balancer.off = Strategy.off
strategy (Balancer.ip_hash b) = Strategy.ip_hash
strategy (Balancer.round_robin b) = Strategy.round_robin

pub total : Balancer → ℕ
total Balancer.off = 0
total (Balancer.ip_hash b) = b.total
total (Balancer.round_robin b) = b.total

-- `search` and `skip` as in the hash ring.
pub next :
    (List IpHash.Node → ℕ → IpHash.Found)
    → ℕ
    → ℕ
    → Balancer
    → List ℕ
    → Option (Option Token × Balancer)
next search skip now Balancer.off src_ip = some (some 0, Balancer.off)
next search skip now (Balancer.ip_hash b) src_ip = elim (IpHash.next search skip now b src_ip) [
  | none ↦ none
  | some (t, b') ↦ some (some t, Balancer.ip_hash b')
]
next search skip now (Balancer.round_robin b) src_ip =
    let (t, b') = RoundRobin.next now b in some (t, Balancer.round_robin b')

pub on_success : Balancer → Token → Balancer
on_success Balancer.off t = Balancer.off
on_success (Balancer.ip_hash b) t = Balancer.ip_hash (IpHash.on_success b t)
on_success (Balancer.round_robin b) t = Balancer.round_robin (RoundRobin.on_success b t)

pub on_failure : ℕ → Balancer → Token → Balancer
on_failure now Balancer.off t = Balancer.off
on_failure now (Balancer.ip_hash b) t = Balancer.ip_hash (IpHash.on_failure now b t)
on_failure now (Balancer.round_robin b) t = Balancer.round_robin (RoundRobin.on_failure now b t)

pub health_config : Balancer → Option HealthCheckConfig
health_config Balancer.off = none
health_config (Balancer.ip_hash b) = b.config
health_config (Balancer.round_robin b) = b.config

-- The weights of a text: the pieces that do not parse are left out. `parse` is the parser of a `u8` in
-- the standard library.
unfoldable pub weights_of : (List ℕ → Option ℕ) → List ℕ → List ℕ
weights_of parse weights =
    let (first, others) = split b',' (trim weights) in
    filter_map (λ w. parse (trim w)) (first ∷ others)

module _ (sort : List IpHash.Node → List IpHash.Node) (parse : List ℕ → Option ℕ) where
  -- A text without a colon is a panic.
  unfoldable pub parse_from_str : List ℕ → Option Balancer
  unfolding weights_of
  parse_from_str s = do
    (strategy, weights) ← split_once b':' s
    chosen ← from_str (trim strategy)
    new sort chosen (weights_of parse weights) none
