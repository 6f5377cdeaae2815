-- ===== src/Lb/RoundRobin/Chosen.antt =====
-- The peer that bytehub_lb/src/round_robin.rs chooses where health checks are off.
use mathlib.Core.Path.{ap₂, subst₂}
use bytehub.Prelude.{
  ℕ, zero, suc, ◌*◌, ◌≤◌, ◌<◌, ◌≡◌, ◌∙◌, refl, ap, sym, subst, inl, inr, Option, none, some, List,
  [], ◌∷◌, map, arith, length, get_elem?, set, Option-cases, get_elem?-lt, length-map,
  get_elem?-some,
}
use bytehub.Prelude.Int.{pos, pos_part, neg_part, ◌+ℤ◌, ◌-ℤ◌, ◌≤ℤ◌, int_laws, wrap16-fits}
use bytehub.Lb.{Token}
use bytehub.Lb.RoundRobin.{
  Node, RoundRobin, Scan, empty_scan, admit, bump, scan, select, finish, next,
}
use bytehub.Lb.RoundRobin.Loop.{scan_best, IsOver, scan-IsOver}
use bytehub.Lb.RoundRobin.Selection.{next-finish}
use native.Mathlib.Decide.{dec_le}
use bytehub.Lb.RoundRobin.Sums.{
  sum, sum_cw, ews, heavier, sum_cw_upper, sum_cw_max, sum_cw-heavier, get_elem?-unmap,
}
use bytehub.Lb.RoundRobin.Steady.{
  scan_off, scan_off_tw, map_eq, IsSteady, sum_small, finish-found, length_pos,
}

-- The chosen node after the call.
abbrev pub settled : ℕ → Node → Node
settled total p = record p { cw = p.cw +ℤ pos p.ew -ℤ pos total }

module _ (ws : List ℕ) (positive : 0 < sum ws) (small : length ws * sum ws ≤ 32767) {c : ℕ → ℕ}
    {k : ℕ} {rr : RoundRobin} (v : IsSteady ws c k rr) where
  length-nodes : length rr.nodes ≡ length ws
  length-nodes = sym (length-map rr.nodes (λ p. p.weight)) ∙ ap length v.weights

  lower' : (i : ℕ) (p : Node) → get_elem? rr.nodes i ≡ some p → pos 0 ≤ℤ p.cw +ℤ pos (sum ws)
  lower' i p at = let l = v.lower i p at in omega int_laws

  -- A current weight stays within the others' debts.
  pub upper :
      (i : ℕ) (p : Node)
      → get_elem? rr.nodes i ≡ some p
      → p.cw +ℤ pos (sum ws) ≤ℤ pos (length ws * sum ws)
  upper i p at =
      let u = sum_cw_upper (sum ws) rr.nodes lower' i p at in
      let u' =
        subst (λ n. p.cw +ℤ pos (sum ws) ≤ℤ sum_cw rr.nodes +ℤ pos (n * sum ws)) length-nodes u in
      omega (int_laws, ap pos_part v.zero_sum, ap neg_part v.zero_sum)

  -- A single weight is at most the sum.
  ew-le : (i : ℕ) (p : Node) → get_elem? rr.nodes i ≡ some p → p.ew ≤ sum ws
  ew-le i p at = subst (λ l. p.ew ≤ sum l) v.effective (ew_below rr.nodes i p at)
    where
      ew_below : (ps : List Node) (i : ℕ) (p : Node) → get_elem? ps i ≡ some p → p.ew ≤ sum (ews ps)
      ew_below [] i p e = cc
      ew_below (q ∷ ps) zero p e = let e' : p.ew ≡ q.ew = ground arith in omega arith
      ew_below (q ∷ ps) (suc i) p e = omega (arith, ew_below ps i p e)

  bump-heavier : (i : ℕ) (p : Node) → get_elem? rr.nodes i ≡ some p → bump p ≡ heavier p
  bump-heavier i p at =
      ap (λ z. record p { cw = z })
        (wrap16-fits (p.cw +ℤ pos p.ew) (omega (int_laws, v.lower i p at, sum_small 32767 ws small))
          (omega (int_laws, upper i p at, ew-le i p at)))

  pub loop : ℕ → Scan × List Node
  loop now = scan none now 0 empty_scan rr.nodes

  loop-nodes : (now : ℕ) → (loop now).1 ≡ map heavier rr.nodes
  unfolding loop
  loop-nodes now = scan_off now 0 empty_scan rr.nodes ∙ map_eq bump heavier rr.nodes bump-heavier

  loop-tw : (now : ℕ) → (loop now).0.tw ≡ pos (sum ws)
  unfolding loop
  loop-tw now =
      let e = ap sum v.effective in
      scan_off_tw now 0 empty_scan rr.nodes 0 refl (omega (arith, sum_small 32767 ws small))
      ∙ ap pos (omega arith)

  -- The best node of the loop, before its increment.
  pub record Best (now : ℕ) (j : ℕ) (p : Node) : Type 0 where
    pub at : get_elem? rr.nodes j ≡ some p
    pub found : (loop now).0.best ≡ some (j, heavier p)
    pub most : (i : ℕ) (q : Node) → get_elem? rr.nodes i ≡ some q → (heavier q).cw ≤ℤ (heavier p).cw

  over :
      (now i : ℕ) (p : Node) → get_elem? rr.nodes i ≡ some p → IsOver (loop now).0.best (bump p).cw
  unfolding loop admit
  over now i p at = scan-IsOver none now rr.nodes 0 empty_scan i p p at refl

  pub loop-Best : (now : ℕ) → (j : ℕ) × (p : Node) × Best now j p
  unfolding loop admit
  loop-Best now = elim (Option-cases (loop now).0.best) [
    | inl nothing ↦
        let (p, at) = get_elem?-some rr.nodes 0 (rw length-nodes (length_pos ws positive)) in
        absurd (subst (λ b. IsOver b (bump p).cw) nothing (over now zero p at))
    | inr ((j, x), e) ↦ elim (scan_best none now rr.nodes 0 empty_scan j x e) [
      | inl old ↦ absurd (let h : none ≡ some (j, x) = old in cc)
      | inr (i, ji, cand, _) ↦
          let same : i ≡ j = omega arith in
          let p = cand.node in
          let at = subst (λ n. get_elem? rr.nodes n ≡ some p) same cand.at in
          let passed : cand.passed ≡ p = ground (arith, cand.admitted) in
          let is_x = cand.weighed ∙ ap bump passed ∙ bump-heavier j p at in
          (
            j,
            p,
            record {
              at = at;
              found = e ∙ ap (λ y. some (j, y)) is_x;
              most = λ n q at'.
                  subst₂ (λ y z. y ≤ℤ z) (ap (λ (r : Node). r.cw) (bump-heavier n q at'))
                    (ap (λ (r : Node). r.cw) is_x)
                    (subst (λ b. IsOver b (bump q).cw) e (over now n q at'));
            },
          )
    ]
  ]

  -- The chosen node weighs more than nothing before the total is taken off.
  pub best_positive : (now j : ℕ) (p : Node) → Best now j p → pos 1 ≤ℤ (heavier p).cw
  best_positive now j p b =
      let z = (heavier p).cw in
      elim (dec_le (pos_part z) (neg_part z)) [
        | yes neg ↦
            let s = sum_cw-heavier rr.nodes in
            let t = ap sum v.effective in
            absurd (
              omega (
                int_laws,
                sum_cw_max z (map heavier rr.nodes) (all_below now j p b) (omega arith),
                ap pos_part s,
                ap neg_part s,
                ap pos_part v.zero_sum,
                ap neg_part v.zero_sum,
              ))
        | no positive' ↦ omega arith
      ]
    where
      all_below :
          (now j : ℕ) (p : Node)
          → Best now j p
          → (i : ℕ) (q : Node) → get_elem? (map heavier rr.nodes) i ≡ some q
          → q.cw ≤ℤ (heavier p).cw
      all_below now j p b i q at =
          let (r, at', e) = get_elem?-unmap heavier rr.nodes i at in
          subst (λ (n : Node). n.cw ≤ℤ (heavier p).cw) e (b.most i r at')

  select-settled :
      (now j : ℕ) (p : Node) → Best now j p → select (pos (sum ws)) (heavier p) ≡ settled (sum ws) p
  select-settled now j p b =
      let whole = v.whole j p b.at in
      let bound = sum_small 32767 ws small in
      ap₂ (λ z n. record p { cw = z; ew = n })
        (wrap16-fits (p.cw +ℤ pos p.ew -ℤ pos (sum ws)) (omega (int_laws, best_positive now j p b))
          (omega (int_laws, upper j p b.at, ew-le j p b.at)))
        (ground arith)

  pub next-settled :
      (now j : ℕ) (p : Node)
      → Best now j p
      → next now rr
        ≡ (some p.token, record rr { nodes = set (map heavier rr.nodes) j (settled (sum ws) p) })
  unfolding loop
  next-settled now j p b =
      subst (λ o. next now rr ≡ finish rr (scan o now 0 empty_scan rr.nodes)) v.off
        (next-finish now rr v.many)
      ∙ finish-found rr (loop now) b.found
      ∙ ap₂ (λ ns tw. (some p.token, record rr { nodes = set ns j (select tw (heavier p)) }))
          (loop-nodes now) (loop-tw now)
      ∙ ap (λ n. (some p.token, record rr { nodes = set (map heavier rr.nodes) j n }))
          (select-settled now j p b)

  -- Only a peer is given out.
  pub next-lt : (now j : ℕ) (rr' : RoundRobin) → next now rr ≡ (some j, rr') → j < length ws
  next-lt now j rr' e =
      let (i, p, b) = loop-Best now in
      let given : some p.token ≡ some j =
        sym (ap (λ (r : Option Token × RoundRobin). r.0) (next-settled now i p b))
        ∙ ap (λ (r : Option Token × RoundRobin). r.0) e in
      let same : p.token ≡ j = cc given in
      let here : i < length rr.nodes = get_elem?-lt rr.nodes i b.at in
      omega (arith, length-nodes, v.tokens i p b.at, same, here)
