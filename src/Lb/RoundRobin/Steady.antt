-- ===== src/Lb/RoundRobin/Steady.antt =====
-- Smooth weighted round robin of bytehub_lb/src/round_robin.rs after some calls without health checks.
use mathlib.Core.Path.{ap₂}
use bytehub.Prelude.{
  ℕ, zero, suc, ◌+◌, ◌*◌, ◌≤◌, ◌<◌, ◌≡◌, ◌≢◌, ◌∙◌, refl, ap, sym, subst, ◌⊎◌, inl, inr, Option,
  none, some, List, [], ◌∷◌, map, arith, length, get_elem?, set, ◌==◌, if◌then◌else◌,
  get_elem?-set-some, get_elem?-set_ne, ℕ_discrete,
}
use bytehub.Prelude.Int.{pos, ◌+ℤ◌, ◌≤ℤ◌, int_laws, wrap16, wrap16-fits}
use bytehub.Lb.{Token}
use bytehub.Lb.RoundRobin.{
  Node, RoundRobin, Scan, admit, note_first, bump, scan, visit, select, finish, next, on_failure,
}
use bytehub.Lb.RoundRobin.Sums.{sum, sum_cw, ews}

-- The tokens of a run of calls at the given times, and the balancer after it.
unfoldable pub nexts : List ℕ → RoundRobin → List (Option Token) × RoundRobin
nexts [] rr = ([], rr)
nexts (now ∷ nows) rr =
    let (t, rr') = next now rr in let (ts, rr'') = nexts nows rr' in (t ∷ ts, rr'')

abbrev pub hit : Token → Option Token → ℕ
hit t none = 0
hit t (some u) = if t == u then 1 else 0

abbrev pub count : Token → List (Option Token) → ℕ
count t [] = 0
count t (o ∷ os) = hit t o + count t os

-- Without health checks the loop admits every node.
pub scan_off : (now i : ℕ) (s : Scan) (ps : List Node) → (scan none now i s ps).1 ≡ map bump ps
unfolding scan visit admit
scan_off now i s [] = refl
scan_off now i s (p ∷ ps) = ap (◌∷◌ (bump p)) (scan_off now (suc i) _ ps)

wrap16_sum : (a b : ℕ) → a + b ≤ 32767 → wrap16 (pos a +ℤ pos b) ≡ pos (a + b)
wrap16_sum a b h = wrap16-fits (pos a +ℤ pos b) (omega int_laws) (omega int_laws) ∙ omega int_laws

pub scan_off_tw :
    (now i : ℕ) (s : Scan) (ps : List Node) (a : ℕ)
    → s.tw ≡ pos a
    → a + sum (ews ps) ≤ 32767
    → (scan none now i s ps).0.tw ≡ pos (a + sum (ews ps))
unfolding scan visit admit note_first
scan_off_tw now i s [] a e small = e ∙ ap pos (omega arith)
scan_off_tw now i s (p ∷ ps) a e small =
    let s' = (visit none now i s p).0 in
    let step : s'.tw ≡ pos (a + p.ew) = rw e (wrap16_sum a p.ew (omega arith)) in
    scan_off_tw now (suc i) s' ps (a + p.ew) step (omega arith) ∙ ap pos (omega arith)

pub map_eq {ℓ κ} :
    {A : Type ℓ} {B : Type κ} (f g : A → B) (xs : List A)
    → ((i : ℕ) (x : A) → get_elem? xs i ≡ some x → f x ≡ g x)
    → map f xs ≡ map g xs
map_eq f g [] h = refl
map_eq f g (x ∷ xs) h = ap₂ ◌∷◌ (h zero x refl) (map_eq f g xs (λ i y e. h (suc i) y e))

pub get_elem?-set_cases {ℓ} :
    {A : Type ℓ} (xs : List A) (i j : ℕ) (v : A) {x y : A}
    → get_elem? xs j ≡ some x
    → get_elem? (set xs j v) i ≡ some y
    → ((i ≡ j) × (y ≡ v)) ⊎ ((i ≢ j) × (get_elem? xs i ≡ some y))
get_elem?-set_cases xs i j v {x} {y} e h = elim (ℕ_discrete i j) [
  | yes same ↦ inl (
    same,
    let h' = subst (λ k. get_elem? (set xs j v) k ≡ some y) same h in
        let now = get_elem?-set-some xs j v e in cc,
  )
  | no other ↦ inr (other, sym (get_elem?-set_ne xs v (λ k. other (sym k))) ∙ h)
]

-- After `k` calls, of which `c i` gave out peer `i`: nothing has failed, effective weights are the
-- configured ones, and the current weight of a peer is what it is owed.
pub record IsSteady (ws : List ℕ) (c : ℕ → ℕ) (k : ℕ) (rr : RoundRobin) : Type 0 where
  pub off : rr.config ≡ none
  pub many : 1 < rr.total
  pub weights : map (λ (p : Node). p.weight) rr.nodes ≡ ws
  pub effective : ews rr.nodes ≡ ws
  pub zero_sum : sum_cw rr.nodes ≡ pos 0
  pub tokens : (i : ℕ) (p : Node) → get_elem? rr.nodes i ≡ some p → p.token ≡ i
  pub whole : (i : ℕ) (p : Node) → get_elem? rr.nodes i ≡ some p → p.ew ≡ p.weight
  pub owed :
      (i : ℕ) (p : Node)
      → get_elem? rr.nodes i ≡ some p
      → p.cw +ℤ pos (c i * sum ws) ≡ pos (k * p.weight)
  pub lower : (i : ℕ) (p : Node) → get_elem? rr.nodes i ≡ some p → pos 1 ≤ℤ p.cw +ℤ pos (sum ws)

pub sum_small : (n : ℕ) (ws : List ℕ) → length ws * sum ws ≤ n → sum ws ≤ n
sum_small n [] h = omega arith
sum_small n (w ∷ ws) h = grind arith

pub finish-found :
    (rr : RoundRobin) (r : Scan × List Node) {j : ℕ} {x : Node}
    → r.0.best ≡ some (j, x)
    → finish rr r ≡ (some x.token, record rr { nodes = set r.1 j (select r.0.tw x) })
finish-found rr (s, nodes) e = rw e

pub length_pos : (ws : List ℕ) → 0 < sum ws → 0 < length ws
length_pos [] h = elim h [ ]
length_pos (w ∷ ws) h = omega arith

-- Without health checks a failure changes nothing.
pub on_failure_off :
    (now : ℕ) (rr : RoundRobin) (t : Token) → rr.config ≡ none → on_failure now rr t ≡ rr
unfolding on_failure
on_failure_off now rr t off = ground arith
