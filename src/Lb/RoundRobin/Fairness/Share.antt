-- ===== src/Lb/RoundRobin/Fairness/Share.antt =====
-- How often `next` of bytehub_lb/src/round_robin.rs gives out each peer where health checks are off.
use mathlib.Core.Path.{fun_ext, subst₂}
use native.Mathlib.Nat.{add_assoc}
use bytehub.Prelude.{
  ℕ, zero, suc, ◌+◌, ◌*◌, ◌≤◌, ◌<◌, ◌≡◌, refl, ap, sym, subst, Option, none, some, List, [], ◌∷◌,
  map, arith, length, get_elem?, dec_lt,
}
use bytehub.Prelude.Int.{ℤ, pos, pos_part, neg_part, ◌+ℤ◌, ◌≤ℤ◌, int_laws}
use bytehub.Lb.RoundRobin.{Node, RoundRobin, new_nodes, new, next}
use bytehub.Lb.RoundRobin.Sums.{sum, sum_cw, ews, sum_cw_nonneg, get_elem?-unmap}
use bytehub.Lb.RoundRobin.Chosen.{upper}
use bytehub.Lb.RoundRobin.Fairness.{next-IsSteady}
use bytehub.Lb.RoundRobin.Steady.{nexts, hit, count, IsSteady}

nexts-step :
    (now : ℕ) (ts : List ℕ) (rr : RoundRobin) {j : ℕ} {rr' : RoundRobin}
    → next now rr ≡ (some j, rr')
    → nexts (now ∷ ts) rr ≡ (some j ∷ (nexts ts rr').0, (nexts ts rr').1)
unfolding nexts
nexts-step now ts rr e = rw e

module _ (ws : List ℕ) (positive : 0 < sum ws) (small : length ws * sum ws ≤ 32767) where
  nexts-IsSteady :
      (ts : List ℕ) (c : ℕ → ℕ) (k : ℕ) (rr : RoundRobin)
      → IsSteady ws c k rr
      → IsSteady ws (λ i. c i + count i (nexts ts rr).0) (k + length ts) (nexts ts rr).1
  unfolding nexts
  nexts-IsSteady [] c k rr v =
      subst (λ n. IsSteady ws (λ i. c i + 0) n rr) (omega arith)
        (subst (λ f. IsSteady ws f k rr) (fun_ext (λ i. omega arith)) v)
  nexts-IsSteady (now ∷ ts) c k rr v =
      let (j, rr', e, v') = next-IsSteady ws positive small v now in
      let rest = nexts-IsSteady ts (λ i. c i + hit i (some j)) (suc k) rr' v' in
      let counted =
        subst (λ f. IsSteady ws f (suc k + length ts) (nexts ts rr').1)
          (fun_ext (λ i. add_assoc (c i) (hit i (some j)) (count i (nexts ts rr').0))) rest in
      let timed =
        subst (λ n. IsSteady ws (λ i. c i + count i (some j ∷ (nexts ts rr').0)) n (nexts ts rr').1)
          (let e : suc k + length ts ≡ k + suc (length ts) = omega arith in e) counted in
      subst
        (λ (r : List (Option ℕ) × RoundRobin).
          IsSteady ws (λ i. c i + count i r.0) (k + suc (length ts)) r.1)
        (sym (nexts-step now ts rr e)) timed

-- A balancer that was just made.
new_nodes-at :
    (n : ℕ) (ws : List ℕ) (i : ℕ) (p : Node)
    → get_elem? (new_nodes n ws) i ≡ some p
    → (p.token ≡ n + i) × (p.ew ≡ p.weight) × (p.cw ≡ pos 0)
unfolding new_nodes
new_nodes-at n [] i p e = cc
new_nodes-at n (w ∷ ws) zero p e = ground arith
new_nodes-at n (w ∷ ws) (suc i) p e =
    let ih = new_nodes-at (suc n) ws i p e in (omega (arith, ih.0), ih.1, ih.2)

weights-new_nodes : (n : ℕ) (ws : List ℕ) → map (λ (p : Node). p.weight) (new_nodes n ws) ≡ ws
unfolding new_nodes
weights-new_nodes n [] = refl
weights-new_nodes n (w ∷ ws) = ap (◌∷◌ w) (weights-new_nodes (suc n) ws)

ews-new_nodes : (n : ℕ) (ws : List ℕ) → ews (new_nodes n ws) ≡ ws
unfolding new_nodes
ews-new_nodes n [] = refl
ews-new_nodes n (w ∷ ws) = ap (◌∷◌ w) (ews-new_nodes (suc n) ws)

sum_cw-new_nodes : (n : ℕ) (ws : List ℕ) → sum_cw (new_nodes n ws) ≡ pos 0
unfolding new_nodes
sum_cw-new_nodes n [] = refl
sum_cw-new_nodes n (w ∷ ws) =
    let ih = sum_cw-new_nodes (suc n) ws in omega (int_laws, ap pos_part ih, ap neg_part ih)

abbrev pub fresh : List ℕ → RoundRobin
fresh ws = record { nodes = new_nodes 0 ws; total = length ws; config = none }

pub new-fresh :
    (ws : List ℕ) (rr : RoundRobin) → 1 < length ws → new ws none ≡ some rr → rr ≡ fresh ws
unfolding new
new-fresh ws rr many e = ground arith

pub fresh-IsSteady : (ws : List ℕ) → 1 < length ws → 0 < sum ws → IsSteady ws (λ i. 0) 0 (fresh ws)
fresh-IsSteady ws many positive = record {
  off = refl;
  many = many;
  weights = weights-new_nodes 0 ws;
  effective = ews-new_nodes 0 ws;
  zero_sum = sum_cw-new_nodes 0 ws;
  tokens = λ i p at. omega (arith, (new_nodes-at 0 ws i p at).0);
  whole = λ i p at. (new_nodes-at 0 ws i p at).1;
  owed = λ i p at.
      let z = (new_nodes-at 0 ws i p at).2 in omega (int_laws, ap pos_part z, ap neg_part z);
  lower = λ i p at.
      let z = (new_nodes-at 0 ws i p at).2 in omega (int_laws, ap pos_part z, ap neg_part z);
}

mul_room : (c w t : ℕ) → w < c → w * t + t ≤ c * t
mul_room c w t h = grind arith

mul_cancel : (c w t : ℕ) → 0 < t → c * t ≡ t * w → c ≡ w
mul_cancel c w t pos' e = elim (dec_lt c w) [
  | yes less ↦ absurd (omega (arith, mul_room w c t less))
  | no ge ↦ elim (dec_lt w c) [
    | yes more ↦ absurd (omega (arith, mul_room c w t more))
    | no le ↦ omega arith
  ]
]

-- A multiple of `t` above -t is not negative.
nonneg_of_multiple :
    (c w t : ℕ) (z : ℤ) → z +ℤ pos (c * t) ≡ pos (t * w) → pos 1 ≤ℤ z +ℤ pos t → pos 0 ≤ℤ z
nonneg_of_multiple c w t z o l = elim (dec_lt w c) [
  | yes more ↦ absurd (omega (int_laws, ap pos_part o, ap neg_part o, mul_room c w t more))
  | no le ↦ let m : c * t ≤ w * t = grind arith in omega (int_laws, ap pos_part o, ap neg_part o)
]

-- After as many calls as the sum of the weights, each peer has been given out as often as its weight
-- says.
module _ (ws : List ℕ) (positive : 0 < sum ws) {c : ℕ → ℕ} {k : ℕ} {rr : RoundRobin}
    (v : IsSteady ws c k rr) (full : k ≡ sum ws) where
  steady_nonneg : (j : ℕ) (q : Node) → get_elem? rr.nodes j ≡ some q → pos 0 ≤ℤ q.cw
  steady_nonneg j q at =
      let o = subst (λ n. q.cw +ℤ pos (c j * sum ws) ≡ pos (n * q.weight)) full (v.owed j q at) in
      nonneg_of_multiple (c j) q.weight (sum ws) q.cw o (v.lower j q at)

  pub steady_full : (i w : ℕ) → get_elem? ws i ≡ some w → c i ≡ w
  steady_full i w at =
      let (p, at', e) =
        get_elem?-unmap (λ (p : Node). p.weight) rr.nodes i
          (subst (λ l. get_elem? l i ≡ some w) (sym v.weights) at) in
      let z =
        sum_cw_nonneg rr.nodes steady_nonneg
          (let e = v.zero_sum in omega (int_laws, ap pos_part e, ap neg_part e)) i p at' in
      let o = subst₂ (λ n m. p.cw +ℤ pos (c i * sum ws) ≡ pos (n * m)) full e (v.owed i p at') in
      mul_cancel (c i) w (sum ws) positive
        (omega (int_laws, ap pos_part o, ap neg_part o, ap pos_part z, ap neg_part z))

-- What `length ts` calls on a new balancer leave, and how often each peer was given out.
module _ (ws : List ℕ) (rr : RoundRobin) (ts : List ℕ) (i w : ℕ) (made : new ws none ≡ some rr)
    (many : 1 < length ws) (positive : 0 < sum ws) (small : length ws * sum ws ≤ 32767)
    (at : get_elem? ws i ≡ some w) where
  after : IsSteady ws (λ n. count n (nexts ts rr).0) (length ts) (nexts ts rr).1
  after =
      let v =
        subst (IsSteady ws (λ n. 0) 0) (sym (new-fresh ws rr many made))
          (fresh-IsSteady ws many positive) in
      let v' = nexts-IsSteady ws positive small ts (λ n. 0) 0 rr v in
      subst₂ (λ f n. IsSteady ws f n (nexts ts rr).1)
        (fun_ext
          (λ n. let e : 0 + count n (nexts ts rr).0 ≡ count n (nexts ts rr).0 = omega arith in e))
        (let e : 0 + length ts ≡ length ts = omega arith in e) v'

  -- For a new balancer without health checks, with two peers or more, a positive sum of weights, and
  -- a sum times the number of peers of at most 32767: in any number of calls, the count of a peer
  -- times the sum is less than one sum above, and at most (peers - 1) sums below, calls times weight.
  pub count-share :
      (count i (nexts ts rr).0 * sum ws < length ts * w + sum ws)
      × (length ts * w + sum ws ≤ count i (nexts ts rr).0 * sum ws + length ws * sum ws)
  count-share =
      let (p, at', e) =
        get_elem?-unmap (λ (p : Node). p.weight) (nexts ts rr).1.nodes i
          (subst (λ l. get_elem? l i ≡ some w) (sym after.weights) at) in
      let o =
        subst (λ n. p.cw +ℤ pos (count i (nexts ts rr).0 * sum ws) ≡ pos (length ts * n)) e
          (after.owed i p at') in
      let l = after.lower i p at' in
      let u = upper ws positive small after i p at' in
      omega (int_laws, ap pos_part o, ap neg_part o)

  -- For a new balancer without health checks, with two peers or more, a positive sum of weights, and
  -- a sum times the number of peers of at most 32767: in the first calls, as many as the sum, each
  -- peer is given out exactly as often as its weight says.
  pub count-cycle : length ts ≡ sum ws → count i (nexts ts rr).0 ≡ w
  count-cycle full = steady_full ws positive after full i w at
