-- ===== src/Lb/RoundRobin/Selection.antt =====
-- Which node `next` of bytehub_lb/src/round_robin.rs gives out.
use mathlib.Core.Path.{subst₂}
use bytehub.Prelude.{
  ℕ, ◌≤◌, ◌<◌, ◌≡◌, ◌∙◌, ap, subst, sym, inl, inr, Option, none, some, List, arith, length,
  get_elem?, Option-cases,
}
use bytehub.Prelude.Int.{◌≤ℤ◌}
use bytehub.Lb.{HealthCheckConfig, Token}
use bytehub.Lb.RoundRobin.{
  Node, RoundRobin, Scan, empty_scan, admit, bump, scan, fallback, finish, next,
}
use bytehub.Lb.RoundRobin.Nearest.{fallback-IsFirst}
use bytehub.Lb.RoundRobin.Loop.{
  IsExcluded, admit-none, admit-some, token-admit, IsCandidate, scan_best, IsOver, scan-IsOver,
  scan_idle,
}

-- With two peers or more, `next` finishes what its loop found.
pub next-finish :
    (now : ℕ) (rr : RoundRobin)
    → 1 < rr.total
    → next now rr ≡ finish rr (scan rr.config now 0 empty_scan rr.nodes)
unfolding next
next-finish now rr h = ground arith

-- The first of the loop's results that `next` looks at.
module _ (now : ℕ) (rr : RoundRobin) (many : 1 < rr.total) where
  loop : Scan × List Node
  loop = scan rr.config now 0 empty_scan rr.nodes

  -- Where the loop finds a node, it is a candidate and its token is given out.
  next-IsCandidate :
      (j : ℕ) (x : Node)
      → loop.0.best ≡ some (j, x)
      → ((next now rr).0 ≡ some x.token) × IsCandidate rr.config now rr.nodes j x
  unfolding loop
  next-IsCandidate j x e = elim (scan_best rr.config now rr.nodes 0 empty_scan j x e) [
    | inl old ↦ absurd (let h : none ≡ some (j, x) = old in cc)
    | inr (k, jk, c, at) ↦ (
      rw (next-finish now rr many, e),
      let jk' : k ≡ j = omega arith in subst (λ n. IsCandidate rr.config now rr.nodes n x) jk' c,
    )
  ]

-- A node with the token `t` that is not excluded, of the greatest weight among those, once the
-- effective weight of each node is added.
pub record IsGreatest (now : ℕ) (cfg : HealthCheckConfig) (nodes : List Node) (t : Token)
    : Type 0 where
  pub position : ℕ
  pub node : Node
  pub at : get_elem? nodes position ≡ some node
  pub has_token : node.token ≡ t
  pub available : ¬ IsExcluded now cfg node
  pub greatest :
      (k : ℕ) (p : Node)
      → get_elem? nodes k ≡ some p
      → ¬ IsExcluded now cfg p
      → (bump p).cw ≤ℤ (bump node).cw

cw-admit :
    (config : Option HealthCheckConfig) (now : ℕ) (p : Node) {q : Node}
    → admit config now p ≡ some q
    → (bump q).cw ≡ (bump p).cw
unfolding admit
cw-admit none now p h = ground arith
cw-admit (some cfg) now p h = ground arith

admit_available :
    (cfg : HealthCheckConfig) (now : ℕ) (p : Node)
    → ¬ IsExcluded now cfg p
    → (q : Node) × (admit (some cfg) now p ≡ some q)
admit_available cfg now p h = elim (Option-cases (admit (some cfg) now p)) [
  | inl out ↦ absurd (h (admit-none cfg now p out))
  | inr found ↦ found
]

-- If health checks are on, there are two peers or more, and some node is not excluded, `next` gives out a node that is not
-- excluded, and its current weight after the increments is the greatest of those nodes.
pub next-IsGreatest :
    (now : ℕ) (rr : RoundRobin) (cfg : HealthCheckConfig) (k : ℕ) (p : Node)
    → rr.config ≡ some cfg
    → 1 < rr.total
    → get_elem? rr.nodes k ≡ some p
    → ¬ IsExcluded now cfg p
    → (t : Token) × ((next now rr).0 ≡ some t) × IsGreatest now cfg rr.nodes t
unfolding loop
next-IsGreatest now rr cfg k p on many at ok = elim (Option-cases (loop now rr many).0.best) [
  | inl nothing ↦ absurd (
      let (q, e) = admit_available cfg now p ok in
      subst (λ b. IsOver b (bump q).cw) nothing (over k p q at e))
  | inr ((j, x), e) ↦
      let (out, c) = next-IsCandidate now rr many j x e in
      let ok' = subst (λ o. admit o now c.node ≡ some c.passed) on c.admitted in
      (
        x.token,
        out,
        record {
          position = j;
          node = c.node;
          at = c.at;
          has_token =
              sym (token-admit rr.config now c.node c.admitted)
              ∙ sym (ap (λ (n : Node). n.token) c.weighed);
          available = admit-some cfg now c.node ok';
          greatest = λ i r at' free.
              let (q, e') = admit_available cfg now r free in
              subst₂ (λ a b. a ≤ℤ b) (cw-admit (some cfg) now r e')
                (ap (λ (n : Node). n.cw) c.weighed ∙ cw-admit rr.config now c.node c.admitted)
                (subst (λ b. IsOver b (bump q).cw) e (over i r q at' e'));
        },
      )
]
  where
    over :
        (k : ℕ) (p q : Node)
        → get_elem? rr.nodes k ≡ some p
        → admit (some cfg) now p ≡ some q
        → IsOver (loop now rr many).0.best (bump q).cw
    over k p q at e =
        scan-IsOver rr.config now rr.nodes 0 empty_scan k p q at
          (subst (λ o. admit o now p ≡ some q) (sym on) e)

finish-idle :
    (rr : RoundRobin) (r : Scan × List Node)
    → r.0.best ≡ none
    → r.1 ≡ rr.nodes
    → finish rr r ≡ (fallback rr.config r.0.first_token rr.nodes, rr)
finish-idle rr (s, nodes) e same = rw (e, same)

admit_excluded :
    (cfg : HealthCheckConfig) (now : ℕ) (p : Node)
    → IsExcluded now cfg p
    → admit (some cfg) now p ≡ none
unfolding admit
admit_excluded cfg now p h = ground arith

-- If health checks are on, there are two peers or more, and every node is excluded, `next` changes nothing and gives out a node
-- whose window ends first.
pub next_all_excluded :
    (now : ℕ) (rr : RoundRobin) (cfg : HealthCheckConfig)
    → rr.config ≡ some cfg
    → 1 < rr.total
    → 0 < length rr.nodes
    → ((k : ℕ) (p : Node) → get_elem? rr.nodes k ≡ some p → IsExcluded now cfg p)
    → (k : ℕ) × (p : Node) × (get_elem? rr.nodes k ≡ some p)
      × (next now rr ≡ (some p.token, rr))
      × ((i : ℕ) (q : Node) → get_elem? rr.nodes i ≡ some q → p.checked ≤ q.checked)
next_all_excluded now rr cfg on many full out =
    let idle = scan_idle rr.config now rr.nodes 0 empty_scan (λ k p at.
      subst (λ o. admit o now p ≡ none) (sym on) (admit_excluded cfg now p (out k p at))) in
    let found = scan rr.config now 0 empty_scan rr.nodes in
    let (x, e) = fallback-IsFirst cfg found.0.first_token rr.nodes full in
    let out = finish-idle rr found idle.1 idle.0 in
    let token =
      subst (λ o. fallback o found.0.first_token rr.nodes ≡ some x.node.token) (sym on) e in
    (x.position, x.node, x.at, next-finish now rr many ∙ out ∙ ap (λ t. (t, rr)) token, x.least)
