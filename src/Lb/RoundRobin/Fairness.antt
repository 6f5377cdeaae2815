-- ===== src/Lb/RoundRobin/Fairness.antt =====
-- Smooth weighted round robin of bytehub_lb/src/round_robin.rs where health checks are off: the
-- share of each peer.
pub mod Share
use mathlib.Core.List.{map-map}
use mathlib.Core.Path.{ap₂, subst₂}
use bytehub.Prelude.{
  ℕ, zero, suc, ◌+◌, ◌*◌, ◌≤◌, ◌<◌, ◌≡◌, ◌≢◌, ◌∙◌, refl, ap, sym, subst, ◌⊎◌, inl, inr, Option,
  none, some, List, [], ◌∷◌, map, arith, length, get_elem?, set, ◌==◌, if◌then◌else◌, ltb,
  Option-cases, get_elem?-set-some, get_elem?-set_ne, ℕ_discrete, get_elem?-lt, length-map,
  get_elem?-some,
}
use bytehub.Prelude.Int.{
  ℤ, pos, pos_part, neg_part, negsuc, ◌+ℤ◌, ◌-ℤ◌, ◌≤ℤ◌, int_laws, wrap16, wrap16-fits,
}
use bytehub.Lb.{HealthCheckConfig, Token}
use bytehub.Lb.RoundRobin.{
  Node, RoundRobin, Scan, empty_scan, admit, note_first, bump, scan, visit, select, finish, new,
  next,
}
use bytehub.Lb.RoundRobin.Loop.{IsCandidate, scan_best, IsOver, scan-IsOver, visit-some}
use bytehub.Lb.RoundRobin.Selection.{next-finish}
use native.Mathlib.Decide.{dec_le}
use bytehub.Lb.RoundRobin.Sums.{
  sum, sum_cw, ews, heavier, sum_cw-set, sum_cw_lower, sum_cw_upper, sum_cw_max, sum_cw_nonneg,
  sum_cw-heavier, map-set_same, get_elem?-map, get_elem?-unmap,
}
use bytehub.Lb.RoundRobin.Steady.{
  hit, scan_off, scan_off_tw, map_eq, get_elem?-set_cases, IsSteady, sum_small, finish-found,
  length_pos,
}
use bytehub.Lb.RoundRobin.Chosen.{settled, Best, best_positive, next-settled, loop-Best}

module _ (ws : List ℕ) (positive : 0 < sum ws) (small : length ws * sum ws ≤ 32767) {c : ℕ → ℕ}
    {k : ℕ} {rr : RoundRobin} (v : IsSteady ws c k rr) where
  -- One more call.
  bump_count : ℕ → ℕ → ℕ
  bump_count j i = c i + hit i (some j)

  module _ (now j : ℕ) (p : Node) (b : Best ws positive small v now j p) where
    new_nodes' : List Node
    new_nodes' = set (map heavier rr.nodes) j (settled (sum ws) p)

    at_heavier : get_elem? (map heavier rr.nodes) j ≡ some (heavier p)
    at_heavier = get_elem?-map heavier rr.nodes j b.at

    -- A slot after the call: the chosen node, or another one that only gained weight.
    slots :
        (i : ℕ) (q : Node)
        → get_elem? new_nodes' i ≡ some q
        → ((i ≡ j) × (q ≡ settled (sum ws) p))
          ⊎ ((i ≢ j) × ((r : Node) × (get_elem? rr.nodes i ≡ some r) × (heavier r ≡ q)))
    unfolding new_nodes'
    slots i q at =
        elim (get_elem?-set_cases (map heavier rr.nodes) i j (settled (sum ws) p) at_heavier at) [
          | inl chosen ↦ inl chosen
          | inr (other, at') ↦ inr (other, get_elem?-unmap heavier rr.nodes i at')
        ]

    -- What each slot keeps, from what the chosen node and each other node keep.
    each_slot :
        (P : ℕ → Node → Type 0)
        → P j (settled (sum ws) p)
        → ((i : ℕ) (r : Node) → i ≢ j → get_elem? rr.nodes i ≡ some r → P i (heavier r))
        → (i : ℕ) (q : Node) → get_elem? new_nodes' i ≡ some q
        → P i q
    each_slot P mine others i q at = elim (slots i q at) [
      | inl (same, e) ↦ subst₂ P (sym same) (sym e) mine
      | inr (other, (r, at', e)) ↦ subst (P i) e (others i r other at')
    ]

    sum_cw-settled : sum_cw new_nodes' ≡ pos 0
    unfolding new_nodes'
    sum_cw-settled =
        let s = sum_cw-set (map heavier rr.nodes) j (heavier p) (settled (sum ws) p) at_heavier in
        let t = sum_cw-heavier rr.nodes in
        let w = ap sum v.effective in
        omega (
          int_laws,
          ap pos_part s,
          ap neg_part s,
          ap pos_part t,
          ap neg_part t,
          ap pos_part v.zero_sum,
          ap neg_part v.zero_sum,
        )

    step-IsSteady : IsSteady ws (bump_count j) (suc k) (record rr { nodes = new_nodes' })
    unfolding new_nodes' bump_count
    step-IsSteady = record {
      off = v.off;
      many = v.many;
      weights =
          map-set_same (λ (q : Node). q.weight) _ j (settled (sum ws) p) at_heavier refl
          ∙ map-map_weight
          ∙ v.weights;
      effective =
          map-set_same (λ (q : Node). q.ew) _ j (settled (sum ws) p) at_heavier refl
          ∙ map-map_ew
          ∙ v.effective;
      zero_sum = sum_cw-settled;
      tokens = each_slot (λ i q. q.token ≡ i) (v.tokens j p b.at) (λ i r other at. v.tokens i r at);
      whole =
          each_slot (λ i q. q.ew ≡ q.weight) (v.whole j p b.at) (λ i r other at. v.whole i r at);
      owed =
          each_slot (λ i q. q.cw +ℤ pos (bump_count j i * sum ws) ≡ pos (suc k * q.weight))
            (owed_chosen) (owed_other);
      lower = each_slot (λ i q. pos 1 ≤ℤ q.cw +ℤ pos (sum ws)) lower_chosen lower_other;
    }
      where
        map-map_weight :
            map (λ (q : Node). q.weight) (map heavier rr.nodes)
            ≡ map (λ (q : Node). q.weight) rr.nodes
        map-map_weight = map-map _ _ rr.nodes

        map-map_ew : ews (map heavier rr.nodes) ≡ ews rr.nodes
        map-map_ew = map-map _ _ rr.nodes

        lower_chosen : pos 1 ≤ℤ (settled (sum ws) p).cw +ℤ pos (sum ws)
        lower_chosen = omega (int_laws, best_positive ws positive small v now j p b)

        lower_other :
            (i : ℕ) (r : Node)
            → i ≢ j
            → get_elem? rr.nodes i ≡ some r
            → pos 1 ≤ℤ (heavier r).cw +ℤ pos (sum ws)
        lower_other i r other at = omega (int_laws, v.lower i r at)

        owed_chosen :
            (settled (sum ws) p).cw +ℤ pos ((c j + hit j (some j)) * sum ws)
            ≡ pos (suc k * p.weight)
        owed_chosen =
            let o = v.owed j p b.at in
            let w = v.whole j p b.at in
            let one : hit j (some j) ≡ 1 = ground arith in
            rw one (omega (int_laws, ap pos_part o, ap neg_part o))

        owed_other :
            (i : ℕ) (r : Node)
            → i ≢ j
            → get_elem? rr.nodes i ≡ some r
            → (heavier r).cw +ℤ pos ((c i + hit i (some j)) * sum ws) ≡ pos (suc k * r.weight)
        owed_other i r other at =
            let o = v.owed i r at in
            let w = v.whole i r at in
            let zero' : hit i (some j) ≡ 0 = ground arith in
            rw zero' (omega (int_laws, ap pos_part o, ap neg_part o))

  pub next-IsSteady :
      (now : ℕ)
      → (j : ℕ) × (rr' : RoundRobin) × (next now rr ≡ (some j, rr'))
        × IsSteady ws (λ i. c i + hit i (some j)) (suc k) rr'
  unfolding new_nodes' bump_count
  next-IsSteady now =
      let (j, p, b) = loop-Best ws positive small v now in
      (
        j,
        record rr { nodes = new_nodes' now j p b },
        next-settled ws positive small v now j p b
            ∙ ap (λ t. (some t, record rr { nodes = new_nodes' now j p b })) (v.tokens j p b.at),
        step-IsSteady now j p b,
      )
