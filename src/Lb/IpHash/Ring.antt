-- ===== src/Lb/IpHash/Ring.antt =====
-- The ring that `new` of bytehub_lb/src/ip_hash.rs builds.
use bytehub.Prelude.{
  ℕ, zero, suc, ◌+◌, ◌*◌, ◌<◌, ◌≡◌, refl, ap, sym, subst, ◌⊎◌, inl, inr, Option, some, List, [],
  ◌∷◌, ◌++◌, map, arith, length, get_elem?, replicate, length-replicate,
}
use bytehub.Lb.{HealthCheckConfig, Token}
use bytehub.Lb.IpHash.{Node, IpHash, healthy, label, replicas, ring, replica_ratio, new}
use bytehub.Lb.IpHash.Hash.{chash}
use bytehub.Lb.IpHash.Backends.{IsWhole}

-- What the program relies on in a sort: it keeps the number of entries and invents none.
pub record IsSort (sort : List Node → List Node) : Type 0 where
  pub keeps_length : (ns : List Node) → length (sort ns) ≡ length ns
  pub invents_none :
      (ns : List Node) (k : ℕ) (n : Node)
      → get_elem? (sort ns) k ≡ some n
      → (j : ℕ) × (get_elem? ns j ≡ some n)

get_elem?-append_cases {ℓ} :
    {A : Type ℓ} (xs ys : List A) (k : ℕ) {x : A}
    → get_elem? (xs ++ ys) k ≡ some x
    → (get_elem? xs k ≡ some x) ⊎ ((j : ℕ) × (get_elem? ys j ≡ some x))
get_elem?-append_cases [] ys k h = inr (k, h)
get_elem?-append_cases (x ∷ xs) ys zero h = inl h
get_elem?-append_cases (x ∷ xs) ys (suc k) h = get_elem?-append_cases xs ys k h

token-replicas :
    (t : Token) (v n k : ℕ) {node : Node}
    → get_elem? (replicas t v n) k ≡ some node
    → node.token ≡ t
unfolding replicas
token-replicas t v zero k h = cc
token-replicas t v (suc n) zero h = ground (arith, h)
token-replicas t v (suc n) (suc k) h = token-replicas t (suc v) n k h

token-ring :
    (ratio t : ℕ) (ws : List ℕ) (k : ℕ) {node : Node}
    → get_elem? (ring ratio t ws) k ≡ some node
    → node.token < t + length ws
unfolding ring
token-ring ratio t [] k h = cc
token-ring ratio t (w ∷ ws) k h =
    elim (get_elem?-append_cases (replicas t 0 (suc (w * ratio))) _ k h) [
      | inl mine ↦ omega (arith, token-replicas t 0 (suc (w * ratio)) k mine)
      | inr (j, later) ↦ omega (arith, token-ring ratio (suc t) ws j later)
    ]

ring_full : (ratio t : ℕ) (ws : List ℕ) → 0 < length ws → 0 < length (ring ratio t ws)
unfolding ring replicas
ring_full ratio t [] h = elim h [ ]
ring_full ratio t (w ∷ ws) h = omega arith

abbrev built : (List Node → List Node) → List ℕ → Option HealthCheckConfig → IpHash
built sort ws config = record {
  nodes = sort (ring (replica_ratio ws) 0 ws);
  backends = replicate (length ws) healthy;
  total = length ws;
  config = config;
}

new-built :
    (sort : List Node → List Node) (ws : List ℕ) (config : Option HealthCheckConfig) (b : IpHash)
    → 1 < length ws
    → new sort ws config ≡ some b
    → b ≡ built sort ws config
unfolding new
new-built sort ws config b many made = ground arith

-- With a sort that keeps the number of entries and invents none, a balancer made from two weights or
-- more has a ring, not empty, whose nodes belong to its backends, one backend for each weight.
pub new-IsWhole :
    (sort : List Node → List Node) (ws : List ℕ) (config : Option HealthCheckConfig) (b : IpHash)
    → IsSort sort
    → 1 < length ws
    → new sort ws config ≡ some b
    → IsWhole b × (length b.backends ≡ length ws) × (b.total ≡ length ws)
new-IsWhole sort ws config b s many made =
    subst (λ (x : IpHash). IsWhole x × (length x.backends ≡ length ws) × (x.total ≡ length ws))
      (sym (new-built sort ws config b many made))
      (
        record {
          full = rw s.keeps_length (ring_full _ 0 ws (omega arith));
          owned = λ k node at.
              let (j, at') = s.invents_none _ k node at in
              omega (arith, token-ring _ 0 ws j at', length-replicate (length ws) healthy);
        },
        length-replicate (length ws) healthy,
        refl,
      )

-- The places of a backend on the ring do not depend on the backend: those of a backend with `n`
-- replicas are the first `n` places of any backend with as many or more.
pub hashes-replicas_shared :
    (t u : Token) (v n extra : ℕ)
    → map (λ (x : Node). x.hash) (replicas u v (n + extra))
      ≡ map (λ (x : Node). x.hash) (replicas t v n)
        ++ map (λ (x : Node). x.hash) (replicas u (v + n) extra)
unfolding replicas
hashes-replicas_shared t u v zero extra =
    let e : 0 + extra ≡ extra = omega arith in let e' : v + 0 ≡ v = omega arith in rw (e, e')
hashes-replicas_shared t u v (suc n) extra =
    let e : suc n + extra ≡ suc (n + extra) = omega arith in
    let e' : v + suc n ≡ suc v + n = omega arith in
    rw (e, e') (ap (◌∷◌ (chash (label v))) (hashes-replicas_shared t u (suc v) n extra))
