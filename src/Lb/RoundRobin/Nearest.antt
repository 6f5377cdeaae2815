-- ===== src/Lb/RoundRobin/Nearest.antt =====
-- The fallback of bytehub_lb/src/round_robin.rs: the search for the window that ends first.
use bytehub.Prelude.{
  ℕ, zero, suc, ◌≤◌, ◌<◌, ◌≡◌, refl, ap, sym, ◌⊎◌, inl, inr, Option, some, List, [], ◌∷◌, arith,
  ltb, length, get_elem?, Bool-cases,
}
use bytehub.Lb.{HealthCheckConfig, Token}
use bytehub.Lb.RoundRobin.{Node, nearest, fallback}

-- A node of the list with this token and this end of its window.
abbrev Holds : List Node → ℕ → Token → Type 0
Holds ps c t = (k : ℕ) × (p : Node) × (get_elem? ps k ≡ some p) × (p.checked ≡ c) × (p.token ≡ t)

-- What the search for the least window, started from `(c, t)`, comes to.
record Nearest (c : ℕ) (t : Token) (ps : List Node) : Type 0 where
  window : ℕ
  token : Token
  result : nearest (some (c, t)) ps ≡ some (window, token)
  below : window ≤ c
  least : (k : ℕ) (p : Node) → get_elem? ps k ≡ some p → window ≤ p.checked
  source : ((window ≡ c) × (token ≡ t)) ⊎ Holds ps window token

Nearest-from : (c : ℕ) (t : Token) (ps : List Node) → Nearest c t ps
unfolding nearest
Nearest-from c t [] = record {
  window = c;
  token = t;
  result = refl;
  below = omega arith;
  least = λ k p at. cc;
  source = inl (refl, refl);
}
Nearest-from c t (p ∷ ps) = elim (Bool-cases (ltb p.checked c)) [
  | inl less ↦
      let r = Nearest-from p.checked p.token ps in
      record {
        window = r.window;
        token = r.token;
        result = rw (less, nearest) r.result;
        below = ground (arith, r.below);
        least = λ k q at. least r.window r.below r.least k q at;
        source = inr (elim r.source [
          | inl (w, t') ↦ (zero, p, refl, sym w, sym t')
          | inr (k, q, at, w, t') ↦ (suc k, q, at, w, t')
        ]);
      }
  | inr more ↦
      let r = Nearest-from c t ps in
      record {
        window = r.window;
        token = r.token;
        result = rw (more, nearest) r.result;
        below = r.below;
        least = λ k q at. least r.window (ground (arith, r.below)) r.least k q at;
        source = elim r.source [
          | inl same ↦ inl same
          | inr (k, q, at, w, t') ↦ inr (suc k, q, at, w, t')
        ];
      }
]
  where
    least :
        (w : ℕ)
        → w ≤ p.checked
        → ((k : ℕ) (q : Node) → get_elem? ps k ≡ some q → w ≤ q.checked)
        → (k : ℕ) (q : Node) → get_elem? (p ∷ ps) k ≡ some q
        → w ≤ q.checked
    least w le rest zero q at = ground arith
    least w le rest (suc k) q at = rest k q at

-- A node of the list whose window ends first.
pub record IsFirst (nodes : List Node) : Type 0 where
  pub position : ℕ
  pub node : Node
  pub at : get_elem? nodes position ≡ some node
  pub least : (k : ℕ) (p : Node) → get_elem? nodes k ≡ some p → node.checked ≤ p.checked

pub fallback-IsFirst :
    (cfg : HealthCheckConfig) (first : Option Token) (nodes : List Node)
    → 0 < length nodes
    → (x : IsFirst nodes) × (fallback (some cfg) first nodes ≡ some x.node.token)
unfolding fallback nearest
fallback-IsFirst cfg first [] h = elim h [ ]
fallback-IsFirst cfg first (p ∷ ps) h =
    let r = Nearest-from p.checked p.token ps in
    let x = origin r in
    (
      record { position = x.0; node = x.1; at = x.2; least = λ k q at. rw x.3 (least r k q at) },
      rw (r.result, fallback) (ap some (sym x.4)),
    )
  where
    origin : (r : Nearest p.checked p.token ps) → Holds (p ∷ ps) r.window r.token
    origin r = elim r.source [
      | inl (w, t) ↦ (zero, p, refl, sym w, sym t)
      | inr (k, q, at, w, t) ↦ (suc k, q, at, w, t)
    ]

    least :
        (r : Nearest p.checked p.token ps) (k : ℕ) (q : Node)
        → get_elem? (p ∷ ps) k ≡ some q
        → r.window ≤ q.checked
    least r zero q at = ground (arith, r.below)
    least r (suc k) q at = r.least k q at
