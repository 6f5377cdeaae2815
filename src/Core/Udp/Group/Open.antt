-- ===== src/Core/Udp/Group/Open.antt =====
-- One group of a batch of packets, for bytehub_core/src/udp/middle.rs.
use bytehub.Prelude.{
  ℕ, suc, ◌^◌, ◌≤◌, ◌<◌, ◌≡◌, refl, sym, ◌∙◌, subst, Bool, true, false, some, List, [], ◌∷◌, length,
  get_elem?, arith, ℕ_discrete,
}
use mathlib.Core.Path.{ap₂}
use bytehub.Core.Udp.Group.{Range, range, eq_at}
use bytehub.Core.Udp.Group.Gather.{All, eq_at-some, IsGathered}

module _ {T : Type 0} (eq : T → T → Bool) where
  -- The ranges follow each other from `lo` to `hi`, none is empty, and the items of each are like its
  -- first, which no later item is.
  unfoldable pub IsGrouped : List T → List Range → ℕ → ℕ → Type 0
  IsGrouped items [] lo hi = lo ≡ hi
  IsGrouped items (g ∷ gs) lo hi =
      (g.start ≡ lo)
      × (lo < g.end)
      × (g.end ≤ hi)
      × ((p : T) × (get_elem? items lo ≡ some p)
          × All (λ x. eq x p ≡ true) lo g.end items
          × All (λ x. eq x p ≡ false) g.end hi items)
      × IsGrouped items gs g.end hi

  -- The items so far: a group that begins at `beg`, up to `end`.
  pub record IsOpen (p : T) (beg end : ℕ) (items : List T) : Type 0 where
    pub pivot : get_elem? items beg ≡ some p
    pub beg-end : beg < end
    pub end-len : end ≤ length items
    pub alike : All (λ x. eq x p ≡ true) beg end items

  range-small :
      (beg end : ℕ) → end < 2 ^ 16 → beg < end → range beg end ≡ record { start = beg; end = end }
  unfolding range
  range-small beg end small less =
      ap₂ (λ (x y : ℕ). record { start = x; end = y }) (omega arith) (omega arith)

  pub group-IsGrouped :
      (p : T) (beg end hi : ℕ) (items : List T) (rest : List Range)
      → IsOpen p beg end items
      → All (λ x. eq x p ≡ false) end hi items
      → end ≤ hi
      → end < 2 ^ 16
      → IsGrouped items rest end hi
      → IsGrouped items (range beg end ∷ rest) beg hi
  unfolding IsGrouped
  group-IsGrouped p beg end hi items rest h others le small k =
      subst (λ (g : Range). IsGrouped items (g ∷ rest) beg hi)
        (sym (range-small beg end small h.beg-end))
        (refl, h.beg-end, le, (p, h.pivot, h.alike, others), k)

  pub last-IsGrouped :
      (p : T) (beg end : ℕ) (items : List T)
      → IsOpen p beg end items
      → length items ≤ end
      → length items < 2 ^ 16
      → IsGrouped items (range beg end ∷ []) beg (length items)
  unfolding IsGrouped All
  last-IsGrouped p beg end items h full small =
      group-IsGrouped p beg end (length items) items [] h (λ i a lo hi e. absurd (omega arith))
        (omega (arith, h.end-len)) (omega (arith, h.end-len)) (omega (arith, h.end-len))

  pub extend-IsOpen :
      (p : T) (beg end : ℕ) (items : List T)
      → IsOpen p beg end items
      → end < length items
      → eq_at eq items end beg ≡ true
      → IsOpen p beg (suc end) items
  unfolding All
  extend-IsOpen p beg end items h inside same = record {
    pivot = h.pivot;
    beg-end = omega (arith, h.beg-end);
    end-len = inside;
    alike = λ i a lo hi e. elim (ℕ_discrete i end) [
      | yes here ↦
          sym (
            eq_at-some eq items end beg a p (subst (λ (t : ℕ). get_elem? items t ≡ some a) here e)
              h.pivot)
          ∙ same
      | no away ↦ h.alike i a lo (ground (arith, away)) e
    ];
  }

  pub open-IsGathered :
      (p : T) (beg end : ℕ) (items : List T)
      → IsOpen p beg end items
      → end < length items
      → eq_at eq items end beg ≡ false
      → IsGathered eq p beg end (suc end) items
  unfolding All
  open-IsGathered p beg end items h inside other = record {
    pivot = h.pivot;
    beg-end = h.beg-end;
    end-probe = omega arith;
    probe-len = inside;
    alike = h.alike;
    others = λ i a lo hi e.
        let here : i ≡ end = omega arith in
        sym (
          eq_at-some eq items end beg a p (subst (λ (t : ℕ). get_elem? items t ≡ some a) here e)
            h.pivot)
        ∙ other;
  }
