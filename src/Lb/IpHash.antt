-- ===== src/Lb/IpHash.antt =====
-- bytehub_lb/src/ip_hash.rs: a ring of virtual nodes, and probing along it past the backends that
-- are excluded. The clock is an argument of each call. `sort` and `search` stand for
-- `sort_unstable_by_key` and `binary_search_by_key`, which promise neither the order of equal keys
-- nor which of several equal keys is found. `none` is a panic.
pub mod Decimal
pub mod Hash
pub mod Backends
pub mod Probing
pub mod Ring
mod Tests
use bytehub.Prelude.{
  ℕ, zero, suc, ◌+◌, ◌-◌, ◌*◌, ◌/◌, ◌%◌, ◌≡◌, refl, Bool, true, false, Option, none, some, List, [],
  ◌∷◌, ◌++◌, ltb, leb, ◌==◌, if◌then◌else◌, add32, length, get_elem?, set, replicate,
}
use bytehub.Lb.{HealthCheckConfig, Token}
use Hash.{chash, chash_for_ip}

pub record BackendHealth : Type 0 where
  pub fails : ℕ
  pub checked : ℕ

abbrev pub healthy : BackendHealth
healthy = record { fails = 0; checked = 0 }

pub record Node : Type 0 where
  pub hash : ℕ
  pub token : Token

pub record IpHash : Type 0 where
  pub nodes : List Node
  pub backends : List BackendHealth
  pub total : ℕ
  pub config : Option HealthCheckConfig

-- The digits of `{}` for a number, before the digits `acc`. A `usize` has at most 20.
pub decimal_from : ℕ → ℕ → List ℕ → List ℕ
decimal_from zero n acc = acc
decimal_from (suc fuel) n acc =
    let acc' = (48 + n % 10) ∷ acc in
    let rest = decimal_from fuel (n / 10) acc' in if n / 10 == 0 then acc' else rest

unfoldable pub decimal : ℕ → List ℕ
unfolding decimal_from
decimal n = decimal_from 20 n []

-- `format!("{0} 114514", vidx)`.
pub label : ℕ → List ℕ
unfolding decimal
label vidx = decimal vidx ++ b' ' ∷ b'1' ∷ b'1' ∷ b'4' ∷ b'5' ∷ b'1' ∷ b'4' ∷ []

pub max_weight : List ℕ → ℕ
max_weight [] = 0
max_weight (w ∷ ws) = let rest = max_weight ws in if ltb rest w then w else rest

-- `f64::ceil(128.0 / max) as u8`: the quotient is exact enough for the ceiling to be that of the
-- integers, and the infinity of a zero weight saturates.
pub replica_ratio : List ℕ → ℕ
unfolding max_weight
replica_ratio weights =
    let max = max_weight weights in
    if leb 128 max then 1 else if max == 0 then 255 else (128 + max - 1) / max

-- `for vidx in 0..=weight`, from `vidx`, with `rounds` to go.
pub replicas : Token → ℕ → ℕ → List Node
unfolding label chash
replicas token vidx zero = []
replicas token vidx (suc rounds) =
    record { hash = chash (label vidx); token = token } ∷ replicas token (suc vidx) rounds

pub ring : ℕ → Token → List ℕ → List Node
unfolding replicas
ring ratio token [] = []
ring ratio token (w ∷ ws) = replicas token 0 (suc (w * ratio)) ++ ring ratio (suc token) ws

pub new : (List Node → List Node) → List ℕ → Option HealthCheckConfig → Option IpHash
unfolding ring replica_ratio
new sort weights config =
    if leb (length weights) 255
    then some (record {
      nodes = if leb (length weights) 1 then [] else sort (ring (replica_ratio weights) 0 weights);
      backends = replicate (length weights) healthy;
      total = length weights;
      config = config;
    })
    else none

-- The result of a binary search: the place of a match, or where one would be inserted.
pub data Found : Type 0 where
  ok err : ℕ → Found

pub start_of : Found → ℕ → ℕ
start_of (ok idx) len = idx
start_of (err idx) len = if leb len idx then 0 else idx

-- What a round of the probing loop does: go on, give out the token, or index out of range.
pub data Round : Type 0 where
  pass panic : Round
  found : List BackendHealth → Round

pub check_backend : Option HealthCheckConfig → ℕ → List BackendHealth → Token → Round
check_backend none now backends token = found backends
check_backend (some cfg) now backends token = elim (get_elem? backends token) [
  | none ↦ panic
  | some backend ↦
      if leb cfg.max_fails backend.fails
      then if ltb now backend.checked then pass else found (set backends token healthy)
      else found backends
]

-- The outcome of the loop: a token with the backends as it leaves them, none, or a panic.
pub data Probe : Type 0 where
  chosen : Token → List BackendHealth → Probe
  exhausted panicked : Probe

-- `for offset in 0..len`, with `rounds` to go.
pub probe : Option HealthCheckConfig → ℕ → List Node → List BackendHealth → ℕ → ℕ → ℕ → Probe
unfolding check_backend
probe config now nodes backends start offset zero = exhausted
probe config now nodes backends start offset (suc rounds) =
    elim (get_elem? nodes ((start + offset) % length nodes)) [
      | none ↦ panicked
      | some node ↦ elim (check_backend config now backends node.token) [
        | pass ↦ probe config now nodes backends start (suc offset) rounds
        | panic ↦ panicked
        | found backends' ↦ chosen node.token backends'
      ]
    ]

-- The start of the ring for a client's address of these bytes, `skip` as in `chash_for_ip`.
pub start_for : (List Node → ℕ → Found) → ℕ → List ℕ → List Node → ℕ
unfolding start_of
start_for search skip ip nodes = start_of (search nodes (chash_for_ip skip ip)) (length nodes)

-- With all backends excluded the first node of the walk is given out.
pub next_from : ℕ → IpHash → ℕ → Option (Token × IpHash)
unfolding probe
next_from now b start = elim (probe b.config now b.nodes b.backends start 0 (length b.nodes)) [
  | chosen token backends ↦ some (token, record b { backends = backends })
  | exhausted ↦ elim (get_elem? b.nodes start) [ none ↦ none | some node ↦ some (node.token, b) ]
  | panicked ↦ none
]

pub next : (List Node → ℕ → Found) → ℕ → ℕ → IpHash → List ℕ → Option (Token × IpHash)
unfolding next_from start_for
next search skip now b ip =
    if leb b.total 1 then some (0, b) else next_from now b (start_for search skip ip b.nodes)

pub on_success : IpHash → Token → IpHash
on_success b token = elim b.config [
  | none ↦ b
  | some cfg ↦ record b { backends = set b.backends token healthy }
]

pub fail_backend : HealthCheckConfig → ℕ → BackendHealth → BackendHealth
fail_backend cfg now backend =
    let fails = add32 backend.fails 1 in
    if leb cfg.max_fails fails
    then record { fails = fails; checked = add32 now cfg.fail_timeout_secs }
    else record backend { fails = fails }

pub on_failure : ℕ → IpHash → Token → IpHash
unfolding fail_backend
on_failure now b token = elim b.config [
  | none ↦ b
  | some cfg ↦ elim (get_elem? b.backends token) [
    | none ↦ b
    | some backend ↦ record b { backends = set b.backends token (fail_backend cfg now backend) }
  ]
]
