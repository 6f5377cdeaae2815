-- ===== src/Lb/IpHash/Probing.antt =====
-- The walk along the ring of bytehub_lb/src/ip_hash.rs.
use native.Mathlib.Nat.{mod-eq_of_lt}
use bytehub.Prelude.{
  ℕ, suc, ◌+◌, ◌-◌, ◌%◌, ◌<◌, ◌≡◌, sym, subst, inl, inr, Option, none, some, List, [], ◌∷◌, arith,
  length, get_elem?, get_elem?-lt, dec_lt,
}
use bytehub.Lb.{HealthCheckConfig, Token}
use bytehub.Lb.IpHash.{
  on_failure, BackendHealth, Node, IpHash, check_backend, Probe, chosen, exhausted, probe,
  next_from,
}
use bytehub.Lb.IpHash.Backends.{
  IsWhole, IsClosed, IsOpen, IsOpen-not-IsClosed, reopened, along, probe_cases,
}

-- Every node stands somewhere along the walk.
walk_reaches :
    (b : IpHash) (start k : ℕ)
    → start < length b.nodes
    → k < length b.nodes
    → (o : ℕ) × (o < length b.nodes) × ((start + o) % length b.nodes ≡ k)
walk_reaches b start k hs hk = elim (dec_lt k start) [
  | yes back ↦ (
    k + length b.nodes - start,
    omega arith,
    let e : start + (k + length b.nodes - start) ≡ k + length b.nodes = omega arith in
        rw e (grind arith),
  )
  | no on ↦ (
    k - start,
    omega arith,
    let e : start + (k - start) ≡ k = omega arith in rw e (mod-eq_of_lt hk),
  )
]

walk : ℕ → IpHash → ℕ → Option HealthCheckConfig → Probe
walk now b start config = probe config now b.nodes b.backends start 0 (length b.nodes)

next_from-chosen :
    (now : ℕ) (b : IpHash) (start : ℕ) {t : Token} {bs : List BackendHealth}
    → walk now b start b.config ≡ chosen t bs
    → next_from now b start ≡ some (t, record b { backends = bs })
unfolding next_from walk
next_from-chosen now b start e = rw (e, next_from)

next_from-exhausted :
    (now : ℕ) (b : IpHash) (start : ℕ) {node : Node}
    → walk now b start b.config ≡ exhausted
    → get_elem? b.nodes start ≡ some node
    → next_from now b start ≡ some (node.token, b)
unfolding next_from walk
next_from-exhausted now b start e at = rw (e, at, next_from)

-- On a ring whose nodes all have a backend, from a start on the ring: if health checks are on and
-- some node of the ring belongs to a backend that is not excluded, the first such node clockwise from the start gives the token: all nodes before it are excluded.
pub next_from-first :
    (now : ℕ) (cfg : HealthCheckConfig) (b : IpHash) (start k : ℕ) (node : Node)
    → IsWhole b
    → b.config ≡ some cfg
    → start < length b.nodes
    → get_elem? b.nodes k ≡ some node
    → IsOpen now cfg b node.token
    → (o : ℕ) × (n : Node) × (b' : IpHash) × (next_from now b start ≡ some (n.token, b'))
      × (along b start o ≡ some n)
      × IsOpen now cfg b n.token
      × ((i : ℕ) (r : Node) → i < o → along b start i ≡ some r → IsClosed now cfg b r.token)
unfolding walk
next_from-first now cfg b start k node whole on hs at free =
    elim (probe_cases now cfg b whole start (length b.nodes) 0) [
      | inl first ↦ (
        first.steps,
        first.node,
        record b { backends = reopened cfg b.backends first.node.token first.is_open.backend },
        next_from-chosen now b start (
            subst
              (λ c.
                walk now b start c
                ≡ chosen first.node.token
                    (reopened cfg b.backends first.node.token first.is_open.backend))
              (sym on) first.result),
        first.at,
        first.is_open,
        λ i r. first.before i r (omega arith),
      )
      | inr (_, all) ↦
          let (o, within, e) = walk_reaches b start k hs (get_elem?-lt b.nodes k at) in
          absurd (
            IsOpen-not-IsClosed now cfg b node.token free
              (all o node (omega arith) (omega arith) (rw e at)))
    ]

-- On a ring whose nodes all have a backend, with health checks on: if all of them belong to excluded
-- backends, the node at the start gives the token, and
-- nothing changes.
pub next_from_all_closed :
    (now : ℕ) (cfg : HealthCheckConfig) (b : IpHash) (start : ℕ) (node : Node)
    → IsWhole b
    → b.config ≡ some cfg
    → get_elem? b.nodes start ≡ some node
    → ((k : ℕ) (n : Node) → get_elem? b.nodes k ≡ some n → IsClosed now cfg b n.token)
    → next_from now b start ≡ some (node.token, b)
unfolding walk
next_from_all_closed now cfg b start node whole on at shut =
    elim (probe_cases now cfg b whole start (length b.nodes) 0) [
      | inl first ↦ absurd (
          IsOpen-not-IsClosed now cfg b first.node.token first.is_open (shut _ first.node first.at))
      | inr (done, _) ↦
          next_from-exhausted now b start
            (subst (λ c. walk now b start c ≡ exhausted) (sym on) done) at
    ]

probe_off :
    (now : ℕ) (bs : List BackendHealth) (start : ℕ) (nodes : List Node) (node : Node)
    → get_elem? nodes start ≡ some node
    → probe none now nodes bs start 0 (length nodes) ≡ chosen node.token bs
unfolding probe check_backend
probe_off now bs start [] node at = cc
probe_off now bs start (x ∷ xs) node at =
    let zero' : start + 0 ≡ start = omega arith in
    let here : (start + 0) % suc (length xs) ≡ start =
      rw zero' (mod-eq_of_lt (get_elem?-lt (x ∷ xs) start at)) in
    rw (here, at, probe)

-- Without health checks the node at the start gives the token, whatever the clock says, and nothing
-- changes: an address keeps its backend.
pub next_from_sticky :
    (now : ℕ) (b : IpHash) (start : ℕ) (node : Node)
    → b.config ≡ none
    → get_elem? b.nodes start ≡ some node
    → next_from now b start ≡ some (node.token, b)
unfolding walk
next_from_sticky now b start node off at = next_from-chosen now b start (
    subst (λ c. walk now b start c ≡ chosen node.token b.backends) (sym off)
      (probe_off now b.backends start b.nodes node at))

-- Without health checks a failure is not counted.
pub on_failure_off : (now : ℕ) (b : IpHash) (t : Token) → b.config ≡ none → on_failure now b t ≡ b
unfolding on_failure
on_failure_off now b t off = ground arith
