-- ===== src/Conf/Legacy.antt =====
-- src/conf/legacy/mod.rs: the configuration of old versions, with lists of addresses and of ranges of
-- ports. A text is its bytes, and `none` is a panic. `parse` stands for the parser of a `u16` in the
-- standard library.
pub mod Pairs
use bytehub.Prelude.{
  ℕ, zero, suc, ◌+◌, ◌-◌, ◌%◌, ◌^◌, ◌≡◌, refl, Bool, true, false, Option, none, some, List, [], ◌∷◌,
  ◌++◌, ltb, ◌==◌, if◌then◌else◌, length, take, replicate, map, ◌>>=◌,
}
use bytehub.Lb.IpHash.{decimal}
use bytehub.Conf
use bytehub.Conf.{EndpointConf, FullConf, default_conf}
use bytehub.Conf.Net

pub record LegacyConf : Type 0 where
  pub listen_addrs : List (List ℕ)
  pub listen_ports : List (List ℕ)
  pub remote_addrs : List (List ℕ)
  pub remote_ports : List (List ℕ)

-- `split('-')`: the first piece, and the rest of the pieces.
pub split_dash : List ℕ → List ℕ × List (List ℕ)
split_dash [] = ([], [])
split_dash (c ∷ cs) =
    let (first, others) = split_dash cs in
    if c == b'-' then ([], first ∷ others) else (c ∷ first, others)

-- The numbers from `start` on, `n` of them.
pub count_up : ℕ → ℕ → List ℕ
count_up start zero = []
count_up start (suc n) = start ∷ count_up (suc start) n

-- `start..end + 1` of `u16`, as a release build computes it: the sum wraps.
pub port_range : ℕ → ℕ → List ℕ
unfolding count_up
port_range start end = count_up start ((end + 1) % 2 ^ 16 - start)

module _ (parse : List ℕ → Option ℕ) where
  pub ports_of : List ℕ → Option (List ℕ)
  unfolding split_dash port_range
  ports_of range =
      let (first, others) = split_dash range in
      elim (parse first) [
        | none ↦ none
        | some start ↦ elim others [
          | [] ↦ some (port_range start start)
          | second ∷ more ↦ elim (parse second) [
            | none ↦ none
            | some end ↦ some (port_range start end)
          ]
        ]
      ]

  pub flatten_ports : List (List ℕ) → Option (List ℕ)
  unfolding ports_of
  flatten_ports [] = some []
  flatten_ports (range ∷ ranges) = do
    ports ← ports_of range
    rest ← flatten_ports ranges
    some (ports ++ rest)

-- `take(len).chain(repeat(first)).take(len)`.
pub pad : {A : Type 0} → ℕ → A → List A → List A
pad len first xs = take len (take len xs ++ replicate len first)

pub zip_with : {A B C : Type 0} → (A → B → C) → List A → List B → List C
zip_with f [] ys = []
zip_with f (x ∷ xs) [] = []
zip_with f (x ∷ xs) (y ∷ ys) = f x y ∷ zip_with f xs ys

-- `format!("{}:{}", addr, port)`.
pub addr_port : List ℕ → ℕ → List ℕ
addr_port addr port = addr ++ b':' ∷ decimal port

-- The first address and the first port must be there.
pub join_addr_port : List (List ℕ) → List ℕ → ℕ → Option (List (List ℕ))
unfolding pad zip_with addr_port
join_addr_port [] ports len = none
join_addr_port (addr0 ∷ addrs) [] len = none
join_addr_port (addr0 ∷ addrs) (port0 ∷ ports) len =
    some (zip_with addr_port (pad len addr0 (addr0 ∷ addrs)) (pad len port0 (port0 ∷ ports)))

pub endpoint : List ℕ → List ℕ → EndpointConf
endpoint listen remote = record {
  listen = listen;
  remote = remote;
  extra_remotes = [];
  obfs = none;
  probe_targets = [];
  balance = none;
  through = none;
  interface = none;
  listen_interface = none;
  listen_transport = none;
  remote_transport = none;
  network = Net.empty_conf;
}

pub from_legacy : (List ℕ → Option ℕ) → LegacyConf → Option FullConf
unfolding flatten_ports join_addr_port zip_with endpoint
from_legacy parse x = do
  listen_ports ← flatten_ports parse x.listen_ports
  remote_ports ← flatten_ports parse x.remote_ports
  listen ← join_addr_port x.listen_addrs listen_ports (length listen_ports)
  remote ← join_addr_port x.remote_addrs remote_ports (length listen_ports)
  some (record default_conf { endpoints = zip_with endpoint listen remote })
