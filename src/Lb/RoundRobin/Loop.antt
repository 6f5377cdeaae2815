-- ===== src/Lb/RoundRobin/Loop.antt =====
-- What the loop of `next` in bytehub_lb/src/round_robin.rs finds.
use mathlib.Core.Path.{ap₂}
use bytehub.Prelude.{
  ℕ, zero, suc, ◌+◌, ◌≤◌, ◌<◌, ◌≡◌, ◌∙◌, refl, ap, sym, ◌⊎◌, inl, inr, Option, none, some, List, [],
  ◌∷◌, arith, get_elem?, Option-cases, Bool-cases,
}
use bytehub.Prelude.Int.{ℤ, ◌≤ℤ◌, ltb_ℤ}
use bytehub.Lb.{HealthCheckConfig}
use bytehub.Lb.RoundRobin.{Node, Scan, admit, note_first, better, bump, weigh, visit, scan}

-- A node is excluded while it has reached the limit of failures and its window is open.
abbrev pub IsExcluded : ℕ → HealthCheckConfig → Node → Type 0
IsExcluded now cfg p = (cfg.max_fails ≤ p.fails) × (now < p.checked)

pub admit-none :
    (cfg : HealthCheckConfig) (now : ℕ) (p : Node)
    → admit (some cfg) now p ≡ none
    → IsExcluded now cfg p
unfolding admit
admit-none cfg now p h = ground arith

pub admit-some :
    (cfg : HealthCheckConfig) (now : ℕ) (p : Node) {q : Node}
    → admit (some cfg) now p ≡ some q
    → ¬ IsExcluded now cfg p
unfolding admit
admit-some cfg now p h x = ground arith

pub token-admit :
    (config : Option HealthCheckConfig) (now : ℕ) (p : Node) {q : Node}
    → admit config now p ≡ some q
    → q.token ≡ p.token
unfolding admit
token-admit none now p h = ground arith
token-admit (some cfg) now p h = ground arith

best-note_first :
    (config : Option HealthCheckConfig) (s : Scan) (p : Node)
    → (note_first config s p).best ≡ s.best
unfolding note_first
best-note_first none s p = refl
best-note_first (some cfg) s p = ground arith

-- The node in hand replaces the best one exactly if its weight is greater.
better_cases :
    (b : Option (ℕ × Node)) (i : ℕ) (p : Node) (j : ℕ) (x : Node)
    → better b i p ≡ some (j, x)
    → (b ≡ some (j, x)) ⊎ ((j ≡ i) × (x ≡ p))
unfolding better
better_cases none i p j x h = inr (ground arith, ground arith)
better_cases (some (j', x')) i p j x h = elim (Bool-cases (ltb_ℤ x'.cw p.cw)) [
  | inl t ↦ let h' = rw t at h in inr (ground arith, ground arith)
  | inr f ↦ inl (rw f at h)
]

-- The candidate at offset `k` of the list, with the node as the loop leaves it.
pub record IsCandidate (config : Option HealthCheckConfig) (now : ℕ) (ps : List Node) (k : ℕ)
    (x : Node) : Type 0 where
  pub node : Node
  pub passed : Node
  pub at : get_elem? ps k ≡ some node
  pub admitted : admit config now node ≡ some passed
  pub weighed : x ≡ bump passed

module _ (config : Option HealthCheckConfig) (now : ℕ) where
  visit-none :
      (i : ℕ) (s : Scan) (p : Node)
      → admit config now p ≡ none
      → visit config now i s p ≡ (note_first config s p, p)
  unfolding visit
  visit-none i s p e = rw (e, visit)

  pub visit-some :
      (i : ℕ) (s : Scan) (p : Node) {q : Node}
      → admit config now p ≡ some q
      → visit config now i s p ≡ (weigh i (note_first config s p) q, bump q)
  unfolding visit
  visit-some i s p e = rw (e, visit)

  -- Where the best node comes from.
  pub scan_best :
      (ps : List Node) (i : ℕ) (s : Scan) (j : ℕ) (x : Node)
      → (scan config now i s ps).0.best ≡ some (j, x)
      → (s.best ≡ some (j, x))
        ⊎ ((k : ℕ) × (j ≡ i + k)
            × IsCandidate config now ps k x
            × (get_elem? (scan config now i s ps).1 k ≡ some x))
  unfolding scan
  scan_best [] i s j x h = inl h
  scan_best (p ∷ ps) i s j x h = elim (scan_best ps (suc i) (visit config now i s p).0 j x h) [
    | inr (k, e, c, at) ↦ inr (
      suc k,
      omega arith,
      record {
        node = c.node;
        passed = c.passed;
        at = c.at;
        admitted = c.admitted;
        weighed = c.weighed;
      },
      at,
    )
    | inl e ↦ elim (Option-cases (admit config now p)) [
      | inl out ↦ inl (sym (best-note_first config s p) ∙ rw (visit-none i s p out) at e)
      | inr (q, ok) ↦
          let s' = note_first config s p in
          elim (better_cases s'.best i (bump q) j x (rw (visit-some i s p ok) at e)) [
            | inl old ↦ inl (sym (best-note_first config s p) ∙ old)
            | inr (here, isq) ↦ inr (
              zero,
              omega arith,
              record { node = p; passed = q; at = refl; admitted = ok; weighed = isq },
              rw (visit-some i s p ok) (ap some (sym isq)),
            )
          ]
    ]
  ]

-- There is a best node, and its weight is at least `z`.
abbrev pub IsOver : Option (ℕ × Node) → ℤ → Type 0
IsOver none z = ⊥
IsOver (some (j, x)) z = z ≤ℤ x.cw

IsOver-better :
    (b : Option (ℕ × Node)) (i : ℕ) (p : Node) (z : ℤ) → IsOver b z → IsOver (better b i p) z
unfolding better
IsOver-better none i p z h = elim h [ ]
IsOver-better (some (j, x)) i p z h = ground arith

IsOver-better_new : (b : Option (ℕ × Node)) (i : ℕ) (p : Node) → IsOver (better b i p) p.cw
unfolding better
IsOver-better_new none i p = omega arith
IsOver-better_new (some (j, x)) i p = ground arith

module _ (config : Option HealthCheckConfig) (now : ℕ) where
  IsOver-visit :
      (i : ℕ) (s : Scan) (p : Node) (z : ℤ)
      → IsOver s.best z
      → IsOver (visit config now i s p).0.best z
  IsOver-visit i s p z h = elim (Option-cases (admit config now p)) [
    | inl out ↦ rw (visit-none config now i s p out, best-note_first config s p) h
    | inr (q, ok) ↦
        rw (visit-some config now i s p ok, best-note_first config s p)
          (IsOver-better s.best i (bump q) z h)
  ]

  IsOver-scan :
      (ps : List Node) (i : ℕ) (s : Scan) (z : ℤ)
      → IsOver s.best z
      → IsOver (scan config now i s ps).0.best z
  unfolding scan
  IsOver-scan [] i s z h = h
  IsOver-scan (p ∷ ps) i s z h = IsOver-scan ps (suc i) _ z (IsOver-visit i s p z h)

  -- The best node weighs at least as much as any node that is admitted.
  pub scan-IsOver :
      (ps : List Node) (i : ℕ) (s : Scan) (k : ℕ) (p q : Node)
      → get_elem? ps k ≡ some p
      → admit config now p ≡ some q
      → IsOver (scan config now i s ps).0.best (bump q).cw
  unfolding scan
  scan-IsOver [] i s k p q e ok = cc
  scan-IsOver (r ∷ ps) i s zero p q e ok = IsOver-scan ps (suc i) _ _ (
      rw (visit-some config now i s r (let ok' : admit config now r ≡ some q = cc in ok'))
        (IsOver-better_new _ i (bump q)))
  scan-IsOver (r ∷ ps) i s (suc k) p q e ok = scan-IsOver ps (suc i) _ k p q e ok

  -- Where no node is admitted the loop changes none.
  pub scan_idle :
      (ps : List Node) (i : ℕ) (s : Scan)
      → ((k : ℕ) (p : Node) → get_elem? ps k ≡ some p → admit config now p ≡ none)
      → ((scan config now i s ps).1 ≡ ps) × ((scan config now i s ps).0.best ≡ s.best)
  unfolding scan
  scan_idle [] i s h = (refl, refl)
  scan_idle (p ∷ ps) i s h =
      let e = visit-none config now i s p (h zero p refl) in
      let rest = scan_idle ps (suc i) (visit config now i s p).0 (λ k r at. h (suc k) r at) in
      (ap₂ ◌∷◌ (ap (λ v. v.1) e) rest.0, rest.1 ∙ rw e (best-note_first config s p))
