-- ===== src/Lb/IpHash/Backends.antt =====
-- The backends that a walk on the ring of bytehub_lb/src/ip_hash.rs passes over and the one where it ends.
use native.Mathlib.Nat.{mod-lt}
use bytehub.Prelude.{
  ℕ, zero, suc, ◌+◌, ◌%◌, ◌≤◌, ◌<◌, ◌≡◌, refl, subst, ◌⊎◌, inl, inr, Option, some, List, leb,
  if◌then◌else◌, arith, length, get_elem?, get_elem?-some, set, dec_lt, ℕ_discrete,
}
use bytehub.Lb.{HealthCheckConfig, Token}
use bytehub.Lb.IpHash.{
  BackendHealth, healthy, Node, IpHash, pass, found, check_backend, chosen, exhausted, probe,
}

abbrev pub IsExcluded : ℕ → HealthCheckConfig → BackendHealth → Type 0
IsExcluded now cfg x = (cfg.max_fails ≤ x.fails) × (now < x.checked)

-- The ring is not empty, and each of its nodes belongs to a backend.
pub record IsWhole (b : IpHash) : Type 0 where
  pub full : 0 < length b.nodes
  pub owned :
      (k : ℕ) (node : Node) → get_elem? b.nodes k ≡ some node → node.token < length b.backends

-- The backend behind a token is there, and is or is not excluded.
pub record IsClosed (now : ℕ) (cfg : HealthCheckConfig) (b : IpHash) (t : Token) : Type 0 where
  pub backend : BackendHealth
  pub at : get_elem? b.backends t ≡ some backend
  pub excluded : IsExcluded now cfg backend

pub record IsOpen (now : ℕ) (cfg : HealthCheckConfig) (b : IpHash) (t : Token) : Type 0 where
  pub backend : BackendHealth
  pub at : get_elem? b.backends t ≡ some backend
  pub free : ¬ IsExcluded now cfg backend

pub IsOpen-not-IsClosed :
    (now : ℕ) (cfg : HealthCheckConfig) (b : IpHash) (t : Token)
    → IsOpen now cfg b t
    → ¬ IsClosed now cfg b t
IsOpen-not-IsClosed now cfg b t o c =
    let same : c.backend ≡ o.backend = ground (arith, o.at, c.at) in
    o.free (subst (IsExcluded now cfg) same c.excluded)

-- The backends after a round that ends at an open one: counters whose window has run out restart.
abbrev pub reopened :
    HealthCheckConfig → List BackendHealth → Token → BackendHealth → List BackendHealth
reopened cfg bs t x = if leb cfg.max_fails x.fails then set bs t healthy else bs

module _ (now : ℕ) (cfg : HealthCheckConfig) (b : IpHash) where
  check_backend_closed :
      (t : Token) → IsClosed now cfg b t → check_backend (some cfg) now b.backends t ≡ pass
  unfolding check_backend
  check_backend_closed t c = let x = c.excluded in rw (c.at, check_backend) (ground (arith, x))

  check_backend_open :
      (t : Token) (o : IsOpen now cfg b t)
      → check_backend (some cfg) now b.backends t ≡ found (reopened cfg b.backends t o.backend)
  unfolding check_backend
  check_backend_open t o = rw (o.at, check_backend) (ground (arith, o.free))

  IsOpen-or_IsClosed :
      (t : Token) → t < length b.backends → IsOpen now cfg b t ⊎ IsClosed now cfg b t
  IsOpen-or_IsClosed t h =
      let (x, e) = get_elem?-some b.backends t h in
      elim (dec_lt now x.checked) [
        | yes late ↦ elim (dec_lt x.fails cfg.max_fails) [
          | yes few ↦ inl (record { backend = x; at = e; free = λ c. omega arith })
          | no many ↦ inr (record { backend = x; at = e; excluded = (omega arith, late) })
        ]
        | no over ↦ inl (record { backend = x; at = e; free = λ c. omega arith })
      ]

-- The node at `offset` steps clockwise from the start.
abbrev pub along : IpHash → ℕ → ℕ → Option Node
along b start offset = get_elem? b.nodes ((start + offset) % length b.nodes)

module _ (now : ℕ) (cfg : HealthCheckConfig) (b : IpHash) (whole : IsWhole b) (start : ℕ) where
  -- All nodes from `offset` on, for so many rounds, belong to excluded backends.
  abbrev pub AllClosed : ℕ → ℕ → Type 0
  AllClosed offset rounds =
      (o : ℕ) (node : Node)
      → offset ≤ o
      → o < offset + rounds
      → along b start o ≡ some node
      → IsClosed now cfg b node.token

  -- The first open backend in that range, and the walk that ends there.
  pub record FirstOpen (offset rounds : ℕ) : Type 0 where
    pub steps : ℕ
    pub node : Node
    pub from : offset ≤ steps
    pub within : steps < offset + rounds
    pub at : along b start steps ≡ some node
    pub is_open : IsOpen now cfg b node.token
    pub result :
        probe (some cfg) now b.nodes b.backends start offset rounds
        ≡ chosen node.token (reopened cfg b.backends node.token is_open.backend)
    pub before :
        (o : ℕ) (n : Node)
        → offset ≤ o
        → o < steps
        → along b start o ≡ some n
        → IsClosed now cfg b n.token

  node_along : (o : ℕ) → (node : Node) × (along b start o ≡ some node)
  node_along o = get_elem?-some b.nodes _ (mod-lt (start + o) whole.full)

  -- One closed node more, before the others.
  IsClosed-cons :
      (offset end : ℕ) (node : Node)
      → along b start offset ≡ some node
      → IsClosed now cfg b node.token
      → ((o : ℕ) (n : Node)
          → suc offset ≤ o
          → o < end
          → along b start o ≡ some n
          → IsClosed now cfg b n.token)
      → (o : ℕ) (n : Node) → offset ≤ o
      → o < end
      → along b start o ≡ some n
      → IsClosed now cfg b n.token
  IsClosed-cons offset end node e shut rest o n lo hi e' = elim (ℕ_discrete o offset) [
    | yes here ↦
        let e'' = subst (λ k. along b start k ≡ some n) here e' in
        let same : node ≡ n = cc in subst (λ (r : Node). IsClosed now cfg b r.token) same shut
    | no there ↦ rest o n (omega arith) hi e'
  ]

  pub probe_cases :
      (rounds offset : ℕ)
      → FirstOpen offset rounds
        ⊎ ((probe (some cfg) now b.nodes b.backends start offset rounds ≡ exhausted)
            × AllClosed offset rounds)
  unfolding probe
  probe_cases zero offset = inr (refl, λ o node lo hi e. absurd (omega arith))
  probe_cases (suc rounds) offset =
      let (node, e) = node_along offset in
      elim (IsOpen-or_IsClosed now cfg b node.token (whole.owned _ node e)) [
        | inl free ↦ inl (record {
          steps = offset;
          node = node;
          from = omega arith;
          within = omega arith;
          at = e;
          is_open = free;
          result = rw (e, probe, check_backend_open now cfg b node.token free);
          before = λ o n lo hi e'. absurd (omega arith);
        })
        | inr shut ↦ elim (probe_cases rounds (suc offset)) [
          | inl first ↦ inl (record {
            steps = first.steps;
            node = first.node;
            from = omega (arith, first.from);
            within = omega (arith, first.within);
            at = first.at;
            is_open = first.is_open;
            result = rw (e, probe, check_backend_closed now cfg b node.token shut) first.result;
            before = IsClosed-cons offset first.steps node e shut first.before;
          })
          | inr (done, rest) ↦ inr (
            rw (e, probe, check_backend_closed now cfg b node.token shut) done,
            λ o n lo hi.
                IsClosed-cons offset (offset + suc rounds) node e shut
                  (λ k r lo' hi'. rest k r lo' (omega arith)) o n lo hi,
          )
        ]
      ]
